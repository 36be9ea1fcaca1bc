-- ===== src/Url/Text.antt =====
-- The std::string_view searches that url.hpp calls; npos is `none`.
use slick_net.Prelude.{
  ℕ, suc, ◌+◌, ◌≡◌, refl, ap, Bool, true, false, ◌&&◌, [], ◌∷◌, ◌++◌, Option, none, some, Bytes,
  ◌==◌, if◌then◌else◌, length, take, drop, get_elem?, ◌⊎◌, inl, inr, Bool-cases,
}
use mathlib.Core.Option
use native.Mathlib.Nat.{zero-add, suc-add}

-- The first position whose byte passes the test: find(char) and find_first_of.
unfoldable pub find_if : (ℕ → Bool) → Bytes → Option ℕ
find_if p [] = none
find_if p (c ∷ cs) = if p c then some 0 else Option.map suc (find_if p cs)

unfoldable pub starts_with : Bytes → Bytes → Bool
starts_with bs [] = true
starts_with [] (d ∷ ds) = false
starts_with (b ∷ bs) (d ∷ ds) = b == d && starts_with bs ds

-- find(string_view), for a pattern that is not empty.
unfoldable pub find : Bytes → Bytes → Option ℕ
unfolding starts_with
find pattern [] = none
find pattern (c ∷ cs) =
    if starts_with (c ∷ cs) pattern then some 0 else Option.map suc (find pattern cs)

-- substr(0, pos); substr(0, npos) is the whole text.
abbrev pub before : Bytes → Option ℕ → Bytes
before bs none = bs
before bs (some pos) = take pos bs

-- The rest from `pos` on, and nothing for npos.
abbrev pub from : Bytes → Option ℕ → Bytes
from bs none = []
from bs (some pos) = drop pos bs

-- No byte passes the test.
abbrev pub Avoids : (ℕ → Bool) → Bytes → Type 0
Avoids p [] = Unit {0}
Avoids p (c ∷ cs) = (p c ≡ false) × Avoids p cs

pub Avoids-append : (p : ℕ → Bool) (a b : Bytes) → Avoids p a → Avoids p b → Avoids p (a ++ b)
Avoids-append p [] b ha hb = hb
Avoids-append p (c ∷ a) b ha hb = (ha.0, Avoids-append p a b ha.1 hb)

pub find_if-none : (p : ℕ → Bool) (a : Bytes) → Avoids p a → find_if p a ≡ none
unfolding find_if
find_if-none p [] h = refl
find_if-none p (c ∷ a) h = rw (h.0, find_if-none p a h.1)

pub find_if-append :
    (p : ℕ → Bool) (a : Bytes) (c : ℕ) (b : Bytes)
    → Avoids p a
    → p c ≡ true
    → find_if p (a ++ c ∷ b) ≡ some (length a)
unfolding find_if
find_if-append p [] c b h e = rw e
find_if-append p (x ∷ a) c b h e = rw (h.0, find_if-append p a c b h.1 e)

-- A pattern that starts with a byte that `a` avoids is not found inside `a`.
pub find-append :
    (a : Bytes) (d : ℕ) (ds b : Bytes)
    → Avoids (λ c. c == d) a
    → starts_with (d ∷ b) (d ∷ ds) ≡ true
    → find (d ∷ ds) (a ++ d ∷ b) ≡ some (length a)
unfolding find
find-append [] d ds b h e = rw e
find-append (x ∷ a) d ds b h e = rw (h.0, find-append a d ds b h.1 e)

pub take-append : (a b : Bytes) → take (length a) (a ++ b) ≡ a
take-append [] b = refl
take-append (c ∷ a) b = ap (◌∷◌ c) (take-append a b)

pub drop-append : (a b : Bytes) → drop (length a) (a ++ b) ≡ b
drop-append [] b = refl
drop-append (c ∷ a) b = drop-append a b

pub Avoids-mono :
    (p q : ℕ → Bool) (a : Bytes) → ((c : ℕ) → q c ≡ false → p c ≡ false) → Avoids q a → Avoids p a
Avoids-mono p q [] w h = tt
Avoids-mono p q (c ∷ a) w h = (w c h.0, Avoids-mono p q a w h.1)

-- Either no byte passes the test, or the search ends at one.
pub find_if-cases :
    (p : ℕ → Bool) (a : Bytes)
    → ((find_if p a ≡ none) × Avoids p a) ⊎ ((pos : ℕ) × (find_if p a ≡ some pos))
unfolding find_if
find_if-cases p [] = inl (refl, tt)
find_if-cases p (c ∷ a) = elim (Bool-cases (p c)) [
  | inl e ↦ inr (0, rw e)
  | inr e ↦ elim (find_if-cases p a) [
    | inl (n, h) ↦ inl (rw (e, n), (e, h))
    | inr (pos, s) ↦ inr (suc pos, rw (e, s))
  ]
]

pub drop-append_more : (a b : Bytes) (k : ℕ) → drop (length a + k) (a ++ b) ≡ drop k b
drop-append_more [] b k = rw zero-add
drop-append_more (c ∷ a) b k = rw suc-add (drop-append_more a b k)

pub find_if-append_second :
    (p : ℕ → Bool) (a : Bytes) (c d : ℕ) (b : Bytes)
    → Avoids p a
    → p c ≡ false
    → p d ≡ true
    → find_if p (a ++ c ∷ d ∷ b) ≡ some (suc (length a))
unfolding find_if
find_if-append_second p [] c d b h n e = rw (n, e)
find_if-append_second p (x ∷ a) c d b h n e = rw (h.0, find_if-append_second p a c d b h.1 n e)

pub get_elem?-append : (a b : Bytes) (k : ℕ) → get_elem? (a ++ b) (length a + k) ≡ get_elem? b k
get_elem?-append [] b k = rw zero-add
get_elem?-append (c ∷ a) b k = rw suc-add (get_elem?-append a b k)
