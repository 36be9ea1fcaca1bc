-- ===== src/WriteChain/Invariant.antt =====
-- One owner of the chain, one write at a time, and the records in order; kept by every step.
use slick_net.Prelude.{
  ℕ, ◌+◌, ◌-◌, ◌≤◌, ◌≡◌, ◌≢◌, refl, sym, ap, ◌∙◌, Bool, true, false, List, [], ◌∷◌, ◌++◌,
  append_assoc, arith, inl, inr, Bool-cases,
}
use slick_net.WriteChain.{
  Chain, Frame, Strand, idle, drained, probing, found, is_connected, opening, publish, claim_load,
  claim_exchange, post_wakeup, take_next, do_write, run_wakeup, clear_flag, probe, probe_queue,
  reclaim, write_done, write_failed, write_crashed, maybe_start_queued_write, tail, Step, publishes,
  loads, exchanges, posts, wakes, clears, probes, reclaims, completes, fails, crashes, resumes,
  changes, Reach, start, next,
}

abbrev pub count : Bool → ℕ
count true = 1
count false = 0

-- A handler that is about to clear the flag.
abbrev pub draining : Strand → ℕ
draining drained = 1
draining _ = 0

-- What holds the chain: a send about to post, a posted wakeup, a parked chain, a write under way, a handler that
-- has found the queue empty; and a write whose onError threw.
abbrev pub owners : Chain → ℕ
owners c = c.claimed + c.posted + count c.parked + c.writing + c.lost + draining c.strand

-- A record that the probe has read is the next one of the queue.
abbrev pub IsNext : Strand → List Frame → Type 0
IsNext (found r) queue = queue ≡ r ∷ tail queue
IsNext _ queue = Unit {0}

abbrev is_probing : Strand → Bool
is_probing idle = false
is_probing _ = true

pub record Inv (c : Chain) : Type 0 where
  pub owned : owners c ≡ count c.running
  pub in_order : c.sent ≡ c.written ++ c.queue
  pub is_next : IsNext c.strand c.queue
  pub lost_failed : 1 ≤ c.lost → c.failed ≡ true
  -- A record left in the queue is somebody's to write, unless a write has failed.
  pub cared :
      c.queue ≢ []
      → c.running ≡ false
      → c.failed ≡ false
      → is_probing c.strand ≡ false
      → 1 ≤ c.published + c.loaded

opening-Inv : Inv opening
opening-Inv = ground arith

-- The strand runs a handler that holds the chain itself.
record Held (c : Chain) : Type 0 where
  held : owners c + 1 ≡ count c.running
  in_order : c.sent ≡ c.written ++ c.queue
  lost_failed : 1 ≤ c.lost → c.failed ≡ true
  at_rest : c.strand ≡ idle

take_next-Inv : (q : List Frame) (c : Chain) → c.queue ≡ q → Held c → Inv (take_next q c)
unfolding take_next
take_next-Inv [] c e h = record {
  owned = ground (arith, h.held, h.at_rest);
  in_order = h.in_order;
  is_next = tt;
  lost_failed = h.lost_failed;
  cared = λ n. absurd (n e);
}
take_next-Inv (r ∷ rest) c e h = record {
  owned = ground (arith, h.held);
  in_order = h.in_order ∙ rw e (sym (append_assoc c.written (r ∷ []) rest));
  is_next = rw h.at_rest tt;
  lost_failed = h.lost_failed;
  cared = λ _ off. ground (arith, h.held);
}

do_write-Inv : (c : Chain) → Held c → Inv (do_write c)
unfolding do_write
do_write-Inv c h = elim (Bool-cases (is_connected c.status)) [
  | inl e ↦ rw e (take_next-Inv c.queue c refl h)
  | inr e ↦ rw e (record {
    owned = ground (arith, h.held);
    in_order = h.in_order;
    is_next = rw h.at_rest tt;
    lost_failed = h.lost_failed;
    cared = λ _ off. ground (arith, h.held);
  })
]

IsNext-append : (s : Strand) (q : List Frame) (r : Frame) → IsNext s q → IsNext s (q ++ r ∷ [])
IsNext-append idle q r h = tt
IsNext-append drained q r h = tt
IsNext-append probing q r h = tt
IsNext-append (found f) [] r h = cc
IsNext-append (found f) (g ∷ q) r h = ground arith

publish-Inv : (r : Frame) (c : Chain) → Inv c → Inv (publish r c)
unfolding publish
publish-Inv r c v = record {
  owned = v.owned;
  in_order =
      ap (λ (l : List Frame). l ++ r ∷ []) v.in_order ∙ append_assoc c.written c.queue (r ∷ []);
  is_next = IsNext-append c.strand c.queue r v.is_next;
  lost_failed = v.lost_failed;
  cared = λ _ _ _ _. omega arith;
}

probe-Inv :
    (q : List Frame) (c : Chain) → c.queue ≡ q → c.strand ≡ probing → Inv c → Inv (probe_queue q c)
unfolding probe_queue
probe-Inv [] c e s v = record {
  owned = omega (arith, v.owned, ap draining s);
  in_order = v.in_order;
  is_next = tt;
  lost_failed = v.lost_failed;
  cared = λ n. absurd (n e);
}
probe-Inv (r ∷ rest) c e s v = record {
  owned = omega (arith, v.owned, ap draining s);
  in_order = v.in_order;
  is_next = rw e;
  lost_failed = v.lost_failed;
  cared = λ _ _ _ no. cc;
}

reclaim-Inv : (r : Frame) (c : Chain) → c.strand ≡ found r → Inv c → Inv (reclaim r c)
unfolding reclaim
reclaim-Inv r c s v = elim (Bool-cases c.running) [
  | inl e ↦ rw e (record {
    owned = ground (arith, v.owned, ap draining s);
    in_order = v.in_order;
    is_next = tt;
    lost_failed = ground (arith, v.owned, v.lost_failed);
    cared = λ _ off. cc;
  })
  | inr e ↦ rw e (record {
    owned = ground (arith, v.owned, ap draining s);
    in_order =
        v.in_order
        ∙ ap (◌++◌ c.written) (rw s at v.is_next)
        ∙ sym (append_assoc c.written (r ∷ []) (tail c.queue));
    is_next = tt;
    lost_failed = ground (arith, v.owned, v.lost_failed);
    cared = λ _ off. cc;
  })
]

clear_flag-Inv : (c : Chain) → c.strand ≡ drained → Inv c → Inv (clear_flag c)
unfolding clear_flag
clear_flag-Inv c e v = record {
  owned = ground (arith, v.owned, ap draining e);
  in_order = v.in_order;
  is_next = tt;
  lost_failed = v.lost_failed;
  cared = λ _ _ _ no. cc;
}

pub Step-Inv : {c d : Chain} → Step c d → Inv c → Inv d
Step-Inv {c} (publishes r) v = publish-Inv r c v
Step-Inv (loads h) v = unfold claim_load in ground arith
Step-Inv (exchanges h) v = unfold claim_exchange in ground arith
Step-Inv (posts h) v = unfold post_wakeup in ground arith
Step-Inv {c} (wakes h e) v =
    unfold run_wakeup in
    do_write-Inv (record c { posted = c.posted - 1 })
      (record {
        held = ground arith;
        in_order = v.in_order;
        lost_failed = v.lost_failed;
        at_rest = e;
      })
Step-Inv {c} (clears e) v = clear_flag-Inv c e v
Step-Inv {c} (probes e) v = unfold probe in probe-Inv c.queue c refl e v
Step-Inv {c} (reclaims {r} e) v = reclaim-Inv r c e v
Step-Inv {c} (completes h e) v =
    unfold write_done in
    do_write-Inv (record c { writing = c.writing - 1 })
      (record {
        held = ground arith;
        in_order = v.in_order;
        lost_failed = v.lost_failed;
        at_rest = e;
      })
Step-Inv (fails h e) v = unfold write_failed in ground arith
Step-Inv (crashes h e) v = unfold write_crashed in ground arith
Step-Inv (resumes e) v = unfold maybe_start_queued_write in ground arith
Step-Inv (changes s) v = ground arith

pub Reach-Inv : {c : Chain} → Reach c → Inv c
Reach-Inv start = opening-Inv
Reach-Inv (next r s) = Step-Inv s (Reach-Inv r)
