-- ===== src/Logging/Retired.antt =====
-- publish and retire: g_hooks, and the stack of the hooks that were replaced, linked through retired_next.
-- A node is a number, in the order of its installation. A step is one access of g_hooks or g_retired.
use slick_net.Prelude.{
  one, times, removed, one_more, one_bound, same_one, ℕ, ◌+◌, ◌≤◌, ◌≡◌, refl, sym, ap, false, List,
  [], ◌∷◌, ◌++◌, Option, none, some, ◌==◌, if◌then◌else◌, subst, arith, ltb,
}

pub record Hub : Type 0 where
  pub current : Option ℕ  -- g_hooks
  pub head : Option ℕ  -- g_retired
  pub retired_next : ℕ → Option ℕ
  pub nodes : ℕ  -- the nodes installed so far
  pub replaced : List ℕ  -- taken out of g_hooks, and retire has not begun its loop
  pub pushing : List ℕ  -- in the loop of retire
  pub retired : List ℕ  -- on the stack, newest first

abbrev pub at_load : Hub
at_load = record {
  current = none;
  head = none;
  retired_next = λ n. none;
  nodes = 0;
  replaced = [];
  pushing = [];
  retired = [];
}

abbrev pub with_old : Option ℕ → List ℕ → List ℕ
with_old none l = l
with_old (some n) l = n ∷ l

-- publish of a new node, and of none.
unfoldable pub install : Hub → Hub
install s = record s {
  current = some s.nodes;
  nodes = s.nodes + 1;
  replaced = with_old s.current s.replaced;
}

pub clear_log_handler : Hub → Hub
clear_log_handler s = record s { current = none; replaced = with_old s.current s.replaced }

abbrev pub update : (ℕ → Option ℕ) → ℕ → Option ℕ → ℕ → Option ℕ
update f n v k = if k == n then v else f k

-- The load of the head into retired_next, before the loop.
unfoldable pub load_head : ℕ → List ℕ → Hub → Hub
load_head n rest s = record s {
  retired_next = update s.retired_next n s.head;
  replaced = rest;
  pushing = n ∷ s.pushing;
}

-- A compare-exchange that fails: it stores the head that it finds into retired_next.
unfoldable pub exchange_fails : ℕ → Hub → Hub
exchange_fails n s = record s { retired_next = update s.retired_next n s.head }

-- One that succeeds.
unfoldable pub exchange_succeeds : ℕ → List ℕ → Hub → Hub
exchange_succeeds n rest s = record s { head = some n; pushing = rest; retired = n ∷ s.retired }

pub data Step (s : Hub) : Hub → Type 0 where
  installs : Step s (install s)
  clears : Step s (clear_log_handler s)
  loads :
      (n : ℕ) (before after : List ℕ)
      → s.replaced ≡ before ++ n ∷ after
      → Step s (load_head n (before ++ after) s)
  retries :
      (n : ℕ) (before after : List ℕ)
      → s.pushing ≡ before ++ n ∷ after
      → Step s (exchange_fails n s)
  pushes :
      (n : ℕ) (before after : List ℕ)
      → s.pushing ≡ before ++ n ∷ after
      → s.head ≡ s.retired_next n
      → Step s (exchange_succeeds n (before ++ after) s)

pub data Reach : Hub → Type 0 where
  start : Reach at_load
  next : {s t : Hub} → Reach s → Step s t → Reach t

abbrev pub held : ℕ → Option ℕ → ℕ
held k none = 0
held k (some n) = one (n == k)

abbrev pub places : ℕ → Hub → ℕ
places k s = held k s.current + times k s.replaced + times k s.pushing + times k s.retired

-- Following retired_next from the head gives these nodes, and then the end.
abbrev pub IsChain : (ℕ → Option ℕ) → Option ℕ → List ℕ → Type 0
IsChain f h [] = h ≡ none
IsChain f h (n ∷ l) = (h ≡ some n) × IsChain f (f n) l

pub record Inv (s : Hub) : Type 0 where
  pub placed : (k : ℕ) → places k s ≡ one (ltb k s.nodes)
  pub linked : IsChain s.retired_next s.head s.retired

with_old-times : (k : ℕ) (o : Option ℕ) (l : List ℕ) → times k (with_old o l) ≡ held k o + times k l
with_old-times k none l = omega arith
with_old-times k (some n) l = refl

other : (n m : ℕ) (l : List ℕ) → times n (m ∷ l) ≡ 0 → ((m == n) ≡ false) × (times n l ≡ 0)
other n m l c = ground arith

-- A link that is not on the chain may change.
IsChain-update :
    (f : ℕ → Option ℕ) (n : ℕ) (v h : Option ℕ) (l : List ℕ)
    → times n l ≡ 0
    → IsChain f h l
    → IsChain (update f n v) h l
IsChain-update f n v h [] c e = e
IsChain-update f n v h (m ∷ l) c e =
    let d = other n m l c in
    (
      e.0,
      subst (λ o. IsChain (update f n v) o l) (sym (ap (λ b. if b then v else f m) d.0))
          (IsChain-update f n v (f m) l d.1 e.1),
    )

install-Inv : (s : Hub) → Inv s → Inv (install s)
unfolding install
install-Inv s v = record {
  placed =
      λ k. omega (arith, v.placed k, with_old-times k s.current s.replaced, one_more k s.nodes);
  linked = v.linked;
}

clear_log_handler-Inv : (s : Hub) → Inv s → Inv (clear_log_handler s)
unfolding clear_log_handler
clear_log_handler-Inv s v = record {
  placed = λ k. omega (arith, v.placed k, with_old-times k s.current s.replaced);
  linked = v.linked;
}

-- A node that is still to be pushed is not on the stack.
unpushed :
    (s : Hub) → Inv s → (n : ℕ) → 1 ≤ times n s.replaced + times n s.pushing → times n s.retired ≡ 0
unpushed s v n h = omega (arith, v.placed n, one_bound (ltb n s.nodes), h)

load_head-Inv :
    (s : Hub) (n : ℕ) (before after : List ℕ)
    → s.replaced ≡ before ++ n ∷ after
    → Inv s
    → Inv (load_head n (before ++ after) s)
unfolding load_head
load_head-Inv s n before after e v = record {
  placed = λ k. omega (arith, v.placed k, removed k n s.replaced before after e);
  linked =
      IsChain-update s.retired_next n s.head s.head s.retired
        (unpushed s v n (omega (arith, removed n n s.replaced before after e, same_one n)))
        v.linked;
}

exchange_fails-Inv :
    (s : Hub) (n : ℕ) (before after : List ℕ)
    → s.pushing ≡ before ++ n ∷ after
    → Inv s
    → Inv (exchange_fails n s)
unfolding exchange_fails
exchange_fails-Inv s n before after e v = record {
  placed = v.placed;
  linked =
      IsChain-update s.retired_next n s.head s.head s.retired
        (unpushed s v n (omega (arith, removed n n s.pushing before after e, same_one n))) v.linked;
}

exchange_succeeds-Inv :
    (s : Hub) (n : ℕ) (before after : List ℕ)
    → s.pushing ≡ before ++ n ∷ after
    → s.head ≡ s.retired_next n
    → Inv s
    → Inv (exchange_succeeds n (before ++ after) s)
unfolding exchange_succeeds
exchange_succeeds-Inv s n before after e h v = record {
  placed = λ k. omega (arith, v.placed k, removed k n s.pushing before after e);
  linked = (refl, subst (λ o. IsChain s.retired_next o s.retired) h v.linked);
}

Step-Inv : {s t : Hub} → Step s t → Inv s → Inv t
Step-Inv {s} installs v = install-Inv s v
Step-Inv {s} clears v = clear_log_handler-Inv s v
Step-Inv {s} (loads n b a e) v = load_head-Inv s n b a e v
Step-Inv {s} (retries n b a e) v = exchange_fails-Inv s n b a e v
Step-Inv {s} (pushes n b a e h) v = exchange_succeeds-Inv s n b a e h v

Reach-Inv : {s : Hub} → Reach s → Inv s
Reach-Inv start = record { placed = λ k. ground arith; linked = refl }
Reach-Inv (next r t) = Step-Inv t (Reach-Inv r)

-- No handler is lost and none is freed: whatever threads install and clear handlers at once, each node that was
-- ever installed is in exactly one of four places (current, replaced, being pushed, on the stack of retired
-- nodes), no other node is in any, and following retired_next from g_retired visits exactly the retired nodes
-- and ends.
pub nodes_kept :
    {s : Hub}
    → Reach s
    → ((k : ℕ) → places k s ≡ one (ltb k s.nodes)) × IsChain s.retired_next s.head s.retired
nodes_kept r = let v = Reach-Inv r in (v.placed, v.linked)
