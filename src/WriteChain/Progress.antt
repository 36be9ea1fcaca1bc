-- ===== src/WriteChain/Progress.antt =====
-- The code's own steps end, with everything written.
use slick_net.Prelude.{
  ℕ, zero, suc, ◌+◌, ◌-◌, ◌*◌, ◌≤◌, ◌<◌, ◌≡◌, refl, ap, ◌∙◌, true, false, List, [], ◌∷◌, arith, inl,
  inr, ◌⊎◌, Bool-cases, length, dec_lt,
}
use slick_net.WriteChain.{
  Chain, Frame, Strand, idle, drained, probing, found, connected, is_connected, claim_load,
  claim_exchange, post_wakeup, take_next, do_write, run_wakeup, clear_flag, probe, probe_queue,
  reclaim, write_done, maybe_start_queued_write, tail, Step, loads, exchanges, posts, wakes, clears,
  probes, reclaims, completes, resumes, Reach,
}
use slick_net.WriteChain.Invariant.{Inv, count, Step-Inv, Reach-Inv}
use slick_net.WriteChain.Delivery.{IsSettled, settled-written}

-- A step of the code itself: no new send, no failure, no change of status.
pub data Work (c : Chain) : Chain → Type 0 where
  loading : 1 ≤ c.published → Work c (claim_load c)
  exchanging : 1 ≤ c.loaded → Work c (claim_exchange c)
  posting : 1 ≤ c.claimed → Work c (post_wakeup c)
  waking : 1 ≤ c.posted → c.strand ≡ idle → Work c (run_wakeup c)
  clearing : c.strand ≡ drained → Work c (clear_flag c)
  looking : c.strand ≡ probing → Work c (probe c)
  reclaiming : {r : Frame} → c.strand ≡ found r → Work c (reclaim r c)
  completing : 1 ≤ c.writing → c.strand ≡ idle → Work c (write_done c)
  resuming : c.strand ≡ idle → c.parked ≡ true → Work c (maybe_start_queued_write c)

pub Work-Step : {c d : Chain} → Work c d → Step c d
Work-Step (loading h) = loads h
Work-Step (exchanging h) = exchanges h
Work-Step (posting h) = posts h
Work-Step (waking h e) = wakes h e
Work-Step (clearing e) = clears e
Work-Step (looking e) = probes e
Work-Step (reclaiming e) = reclaims e
Work-Step (completing h e) = completes h e
Work-Step (resuming e p) = resumes e

abbrev pub strand_work : Strand → ℕ
strand_work idle = 0
strand_work drained = 3
strand_work probing = 2
strand_work (found r) = 1

-- What is left to do, at most, while the connection is up.
abbrev pub work : Chain → ℕ
work c =
    5 * length c.queue
    + 7 * c.published
    + 6 * c.loaded
    + 5 * c.claimed
    + 4 * c.posted
    + 4 * c.writing
    + 5 * count c.parked
    + strand_work c.strand

pub record Ahead (c d : Chain) : Type 0 where
  pub less : work d < work c
  pub same_sent : d.sent ≡ c.sent
  pub still : d.status ≡ connected
  pub fine : d.failed ≡ false

take_next-Ahead :
    (q : List Frame) (c : Chain) (w : ℕ)
    → c.queue ≡ q
    → c.strand ≡ idle
    → work c + 4 ≤ w
    → work (take_next q c) < w
unfolding take_next
take_next-Ahead [] c w e i h = ground arith
take_next-Ahead (r ∷ q) c w e i h = ground arith

take_next-keeps :
    (q : List Frame) (c : Chain)
    → ((take_next q c).sent ≡ c.sent)
      × ((take_next q c).status ≡ c.status)
      × ((take_next q c).failed ≡ c.failed)
unfolding take_next
take_next-keeps [] c = (refl, refl, refl)
take_next-keeps (r ∷ q) c = (refl, refl, refl)

do_write-Ahead :
    (b c : Chain)
    → c.strand ≡ idle
    → c.status ≡ connected
    → c.failed ≡ false
    → c.sent ≡ b.sent
    → work c + 4 ≤ work b
    → Ahead b (do_write c)
unfolding do_write
do_write-Ahead b c i s f e h =
    let k = take_next-keeps c.queue c in
    let up : is_connected c.status ≡ true = ap is_connected s in
    rw up (record {
      less = take_next-Ahead c.queue c (work b) refl i h;
      same_sent = k.0 ∙ e;
      still = k.1 ∙ s;
      fine = k.2 ∙ f;
    })

probe-Ahead :
    (q : List Frame) (c : Chain)
    → c.queue ≡ q
    → c.strand ≡ probing
    → c.status ≡ connected
    → c.failed ≡ false
    → Ahead c (probe_queue q c)
unfolding probe_queue
probe-Ahead [] c e p s f = ground arith
probe-Ahead (r ∷ q) c e p s f = ground arith

reclaim-Ahead :
    (r : Frame) (q : List Frame) (c : Chain)
    → c.queue ≡ r ∷ q
    → c.strand ≡ found r
    → c.status ≡ connected
    → c.failed ≡ false
    → Ahead c (reclaim r c)
unfolding reclaim
reclaim-Ahead r q c e p s f = ground arith

-- Each step of the code takes the chain closer to the end of its work.
pub Work-Ahead :
    {c d : Chain} → Work c d → Inv c → c.status ≡ connected → c.failed ≡ false → Ahead c d
Work-Ahead (loading h) v s f = unfold claim_load in ground arith
Work-Ahead (exchanging h) v s f = unfold claim_exchange in ground arith
Work-Ahead (posting h) v s f = unfold post_wakeup in ground arith
Work-Ahead {c} (waking h e) v s f =
    unfold run_wakeup in
    do_write-Ahead c (record c { posted = c.posted - 1 }) e s f refl (omega arith)
Work-Ahead (clearing e) v s f = unfold clear_flag in ground arith
Work-Ahead {c} (looking e) v s f = unfold probe in probe-Ahead c.queue c refl e s f
Work-Ahead {c} (reclaiming {r} e) v s f = reclaim-Ahead r (tail c.queue) c (rw e at v.is_next) e s f
Work-Ahead {c} (completing h e) v s f =
    unfold write_done in
    do_write-Ahead c (record c { writing = c.writing - 1 }) e s f refl (omega arith)
Work-Ahead {c} (resuming e p) v s f = unfold maybe_start_queued_write in ground arith

abbrev Progress : Chain → Type 0
Progress c = IsSettled c ⊎ ((d : Chain) × Work c d)

-- With the strand free and no send under way.
Progress-idle : (c : Chain) → c.strand ≡ idle → c.published + c.loaded + c.claimed ≡ 0 → Progress c
Progress-idle c e n = elim (dec_lt 0 c.posted) [
  | yes p ↦ inr (run_wakeup c, waking p e)
  | no p ↦ elim (dec_lt 0 c.writing) [
    | yes w ↦ inr (write_done c, completing w e)
    | no w ↦ elim (Bool-cases c.parked) [
      | inl k ↦ inr (maybe_start_queued_write c, resuming e k)
      | inr k ↦ inl (record {
        no_send = n;
        no_wakeup = omega arith;
        no_write = omega arith;
        not_parked = k;
        at_rest = e;
      })
    ]
  ]
]

Progress-strand :
    (s : Strand) (c : Chain) → c.strand ≡ s → c.published + c.loaded + c.claimed ≡ 0 → Progress c
Progress-strand idle c e n = Progress-idle c e n
Progress-strand drained c e n = inr (clear_flag c, clearing e)
Progress-strand probing c e n = inr (probe c, looking e)
Progress-strand (found r) c e n = inr (reclaim r c, reclaiming e)

-- Some step is possible until nothing is left to run.
pub progress : (c : Chain) → Progress c
progress c = elim (dec_lt 0 c.published) [
  | yes p ↦ inr (claim_load c, loading p)
  | no p ↦ elim (dec_lt 0 c.loaded) [
    | yes l ↦ inr (claim_exchange c, exchanging l)
    | no l ↦ elim (dec_lt 0 c.claimed) [
      | yes k ↦ inr (post_wakeup c, posting k)
      | no k ↦ Progress-strand c.strand c refl (omega arith)
    ]
  ]
]

-- So many steps of the code lead from one state to another.
pub data Run : ℕ → Chain → Chain → Type 0 where
  halt : {c : Chain} → Run zero c c
  turn : {n : ℕ} {c d e : Chain} → Work c d → Run n d e → Run (suc n) c e

finish :
    (fuel : ℕ) (c : Chain)
    → work c < fuel
    → Inv c
    → c.status ≡ connected
    → c.failed ≡ false
    → (n : ℕ) × (d : Chain) × Run n c d × (d.written ≡ c.sent)
finish zero c h v s f = absurd (omega arith)
finish (suc fuel) c h v s f = elim (progress c) [
  | inl done ↦ (0, c, halt, settled-written v done f)
  | inr (d, w) ↦
      let a = Work-Ahead w v s f in
      let (n, e, ws, t) =
        finish fuel d (omega (arith, a.less)) (Step-Inv (Work-Step w) v) a.still a.fine in
      (suc n, e, turn w ws, t ∙ a.same_sent)
]

-- While the connection stays up and no write fails, the code's own steps come to an end with all that
-- was sent written, from every state that can be reached.
pub all_written :
    {c : Chain}
    → Reach c
    → c.status ≡ connected
    → c.failed ≡ false
    → (n : ℕ) × (d : Chain) × Run n c d × (d.written ≡ c.sent)
all_written {c} r s f = finish (suc (work c)) c (omega arith) (Reach-Inv r) s f

steps_bound :
    {n : ℕ} {c d : Chain} → Run n c d → Inv c → c.status ≡ connected → c.failed ≡ false → n ≤ work c
steps_bound halt v s f = omega arith
steps_bound (turn w r) v s f =
    let a = Work-Ahead w v s f in
    omega (arith, a.less, steps_bound r (Step-Inv (Work-Step w) v) a.still a.fine)

-- However the code's steps are scheduled, there are no more of them than the work that is left, while
-- the connection stays up and no write fails.
pub Run-bound :
    {n : ℕ} {c d : Chain}
    → Run n c d
    → Reach c
    → c.status ≡ connected
    → c.failed ≡ false
    → n ≤ work c
Run-bound r h s f = steps_bound r (Reach-Inv h) s f
