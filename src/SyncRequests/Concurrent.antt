-- ===== src/SyncRequests/Concurrent.antt =====
-- The pool of contexts under concurrent calls. A step is the access of a slot that decides what a call does
-- there: a slot that is found empty by the load or by the exchange of acquire is passed over, and one that is
-- found taken by the load or by the compare-exchange of release is, too.
use slick_net.Prelude.{
  one, times, removed, one_more, ℕ, suc, ◌+◌, ◌≡◌, refl, sym, ap, ◌∙◌, List, [], ◌∷◌, ◌++◌, Option,
  none, some, ◌==◌, if◌then◌else◌, ltb, length, length-append, arith,
}
use slick_net.SyncRequests.{Slots, free_slots}
use slick_net.SyncRequests.Pool.{parked, taken}

pub record Contexts : Type 0 where
  pub slots : Slots
  pub acquiring : List ℕ  -- the slots that calls of acquire have come to
  pub running : List ℕ  -- the contexts that acquire has returned and release was not given
  pub releasing : List ℕ  -- those that calls of release have to park
  pub position : ℕ → ℕ  -- the slot that the release of a context has come to
  pub destroyed : List ℕ
  pub contexts : ℕ  -- the contexts so far

abbrev pub at_load : Contexts
at_load = record {
  slots = free_slots 16;
  acquiring = [];
  running = [];
  releasing = [];
  position = λ c. 0;
  destroyed = [];
  contexts = 0;
}

unfoldable pub begin_acquire : Contexts → Contexts
begin_acquire s = record s { acquiring = 0 ∷ s.acquiring }

-- A turn of the loop of acquire at slot i, where it stands between before and after.
unfoldable pub take_slot :
    Option ℕ → (i : ℕ) (xs ys : List ℕ) (before after : Slots) → Contexts → Contexts
take_slot none i xs ys before after s = record s { acquiring = xs ++ suc i ∷ ys }
take_slot (some c) i xs ys before after s = record s {
  acquiring = xs ++ ys;
  slots = before ++ none ∷ after;
  running = c ∷ s.running;
}

-- Behind the loop: no context was there to take.
unfoldable pub make_context : List ℕ → Contexts → Contexts
make_context rest s = record s {
  acquiring = rest;
  running = s.contexts ∷ s.running;
  contexts = s.contexts + 1;
}

-- The request is done, and release is called.
unfoldable pub begin_release : ℕ → List ℕ → Contexts → Contexts
begin_release c rest s = record s {
  running = rest;
  releasing = c ∷ s.releasing;
  position = λ k. if k == c then 0 else s.position k;
}

unfoldable pub park_slot :
    Option ℕ → (c : ℕ) (rest : List ℕ) (before after : Slots) → Contexts → Contexts
park_slot none c rest before after s = record s {
  releasing = rest;
  slots = before ++ some c ∷ after;
}
park_slot (some d) c rest before after s = record s {
  position = λ k. if k == c then s.position c + 1 else s.position k;
}

-- Behind the loop of release: every slot was taken.
unfoldable pub destroy_context : ℕ → List ℕ → Contexts → Contexts
destroy_context c rest s = record s { releasing = rest; destroyed = c ∷ s.destroyed }

pub data Step (s : Contexts) : Contexts → Type 0 where
  acquires : Step s (begin_acquire s)
  takes :
      (o : Option ℕ) (i : ℕ) (xs ys : List ℕ) (before after : Slots)
      → s.acquiring ≡ xs ++ i ∷ ys
      → s.slots ≡ before ++ o ∷ after
      → length before ≡ i
      → Step s (take_slot o i xs ys before after s)
  makes :
      (i : ℕ) (xs ys : List ℕ)
      → s.acquiring ≡ xs ++ i ∷ ys
      → i ≡ length s.slots
      → Step s (make_context (xs ++ ys) s)
  releases :
      (c : ℕ) (xs ys : List ℕ) → s.running ≡ xs ++ c ∷ ys → Step s (begin_release c (xs ++ ys) s)
  parks :
      (o : Option ℕ) (c : ℕ) (xs ys : List ℕ) (before after : Slots)
      → s.releasing ≡ xs ++ c ∷ ys
      → s.slots ≡ before ++ o ∷ after
      → length before ≡ s.position c
      → Step s (park_slot o c (xs ++ ys) before after s)
  destroys :
      (c : ℕ) (xs ys : List ℕ)
      → s.releasing ≡ xs ++ c ∷ ys
      → s.position c ≡ length s.slots
      → Step s (destroy_context c (xs ++ ys) s)

pub data Reach : Contexts → Type 0 where
  start : Reach at_load
  next : {s t : Contexts} → Reach s → Step s t → Reach t

-- How often a context is parked, in use, about to be parked, or destroyed.
abbrev pub places : ℕ → Contexts → ℕ
places k s = parked k s.slots + times k s.running + times k s.releasing + times k s.destroyed

parked-middle :
    (k : ℕ) (o : Option ℕ) (xs ys : Slots)
    → parked k (xs ++ o ∷ ys) ≡ taken k o + parked k (xs ++ ys)
parked-middle k none [] ys = omega arith
parked-middle k (some c) [] ys = refl
parked-middle k o (none ∷ xs) ys = parked-middle k o xs ys
parked-middle k o (some d ∷ xs) ys = omega (arith, parked-middle k o xs ys)

-- The slot that a call has come to.
found :
    (k : ℕ) (o : Option ℕ) (slots xs ys : Slots)
    → slots ≡ xs ++ o ∷ ys
    → parked k slots ≡ taken k o + parked k (xs ++ ys)
found k o slots xs ys e = ap (parked k) e ∙ parked-middle k o xs ys

same-length :
    (o p : Option ℕ) (slots xs ys : Slots)
    → slots ≡ xs ++ o ∷ ys
    → length (xs ++ p ∷ ys) ≡ length slots
same-length o p slots xs ys e =
    length-append xs (p ∷ ys) ∙ sym (length-append xs (o ∷ ys)) ∙ sym (ap length e)

Placed : Contexts → Type 0
Placed s = (k : ℕ) → places k s ≡ one (ltb k s.contexts)

Step-Placed : {s t : Contexts} → Step s t → Placed s → Placed t
unfolding Placed begin_acquire take_slot make_context begin_release park_slot destroy_context
Step-Placed acquires v k = v k
Step-Placed (takes none i xs ys b a e f l) v k = v k
Step-Placed {s} (takes (some c) i xs ys b a e f l) v k =
    omega (arith, v k, found k (some c) s.slots b a f, parked-middle k none b a)
Step-Placed {s} (makes i xs ys e l) v k = omega (arith, v k, one_more k s.contexts)
Step-Placed {s} (releases c xs ys e) v k = omega (arith, v k, removed k c s.running xs ys e)
Step-Placed {s} (parks none c xs ys b a e f l) v k = omega (
  arith,
  v k,
  removed k c s.releasing xs ys e,
  found k none s.slots b a f,
  parked-middle k (some c) b a,
)
Step-Placed (parks (some d) c xs ys b a e f l) v k = v k
Step-Placed {s} (destroys c xs ys e l) v k = omega (arith, v k, removed k c s.releasing xs ys e)

Step-length : {s t : Contexts} → Step s t → length t.slots ≡ length s.slots
unfolding begin_acquire take_slot make_context begin_release park_slot destroy_context
Step-length acquires = refl
Step-length (takes none i xs ys b a e f l) = refl
Step-length {s} (takes (some c) i xs ys b a e f l) = same-length (some c) none s.slots b a f
Step-length (makes i xs ys e l) = refl
Step-length (releases c xs ys e) = refl
Step-length {s} (parks none c xs ys b a e f l) = same-length none (some c) s.slots b a f
Step-length (parks (some d) c xs ys b a e f l) = refl
Step-length (destroys c xs ys e l) = refl

-- However calls of acquire and release interleave, each context that was ever made is in exactly one place: in
-- a slot, with one call, or destroyed, so no two calls run on one context; and the slots stay sixteen.
pub context_in_one_place :
    {s : Contexts}
    → Reach s
    → ((k : ℕ) → places k s ≡ one (ltb k s.contexts)) × (length s.slots ≡ 16)
unfolding Placed
context_in_one_place start = (λ k. ground arith, refl)
context_in_one_place (next r e) =
    let p = context_in_one_place r in (Step-Placed e p.0, Step-length e ∙ p.1)
