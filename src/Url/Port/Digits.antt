-- ===== src/Url/Port/Digits.antt =====
-- Which texts are accepted as the port of a URL.
use slick_net.Prelude.{
  ℕ, ◌+◌, ◌-◌, ◌*◌, ◌≤◌, ◌<◌, ◌≡◌, ◌↔◌, refl, sym, ap, ◌∙◌, Bool, true, false, ◌&&◌, [], ◌∷◌,
  Option, none, some, arith, Bytes, ◌==◌, ltb, Bool-cases, inl, inr,
}
use slick_net.Url.Port.{
  is_digit, scan_digits, from_digits, from_chars, from_chars-lt, from_chars-digit,
}
use slick_net.Url.{parsed, parse_port, whole_port}

-- The decimal value of a text behind the digits that make v.
abbrev pub decimal : ℕ → Bytes → ℕ
decimal v [] = v
decimal v (c ∷ cs) = decimal (10 * v + (c - b'0')) cs

abbrev pub all_digits : Bytes → Bool
all_digits [] = true
all_digits (c ∷ cs) = is_digit c && all_digits cs

scanned : (cs : Bytes) (v : ℕ) → all_digits cs ≡ true → scan_digits v cs ≡ (decimal v cs, [])
unfolding scan_digits
scanned [] v h = refl
scanned (c ∷ cs) v h =
    let d : is_digit c ≡ true = ground (arith, h) in
    rw d (scanned cs (10 * v + (c - b'0')) (ground (arith, h)))

-- A text that is read to its end has digits only.
scanned_whole : (cs : Bytes) (v n : ℕ) → scan_digits v cs ≡ (n, []) → all_digits cs ≡ true
unfolding scan_digits
scanned_whole [] v n e = refl
scanned_whole (c ∷ cs) v n e = elim (Bool-cases (is_digit c)) [
  | inl d ↦ rw d (scanned_whole cs (10 * v + (c - b'0')) n (rw d at e))
  | inr d ↦ absurd (let e' = ap (λ (r : ℕ × Bytes). r.1) (rw d at e) in cc)
]

from_chars-whole :
    (c : ℕ) (cs : Bytes) (n : ℕ)
    → all_digits (c ∷ cs) ≡ true
    → decimal 0 (c ∷ cs) ≡ n
    → n < 65536
    → from_chars (c ∷ cs) ≡ some (n, [])
from_chars-whole c cs n h e l =
    from_chars-digit (c ∷ cs) c cs refl (ground (arith, h))
    ∙ ap from_digits (scanned (c ∷ cs) 0 h)
    ∙ rw e (kept n l)
  where
    kept : (k : ℕ) → k < 65536 → from_digits (k, []) ≡ some (k, [])
    kept k b = unfold from_digits in ground arith

some_pair :
    {m n : ℕ} {a b : Bytes}
    → ◌≡◌ {A = Option (ℕ × Bytes)} (some (m, a)) (some (n, b))
    → (m ≡ n) × (a ≡ b)
some_pair e = (cc, cc)

in_range : (r : ℕ × Bytes) (n : ℕ) → from_digits r ≡ some (n, []) → r ≡ (n, [])
unfolding from_digits
in_range (m, a) n e = elim (Bool-cases (ltb m 65536)) [
  | inl h ↦ let p = some_pair (rw h at e) in rw (p.0, p.1) refl
  | inr h ↦ absurd (let e' = rw h at e in cc)
]

from_chars-scanned :
    (c : ℕ) (cs : Bytes) (n : ℕ)
    → from_chars (c ∷ cs) ≡ some (n, [])
    → scan_digits 0 (c ∷ cs) ≡ (n, [])
unfolding from_chars
from_chars-scanned c cs n e = elim (Bool-cases (is_digit c)) [
  | inl h ↦ in_range (scan_digits 0 (c ∷ cs)) n (sym (from_chars-digit (c ∷ cs) c cs refl h) ∙ e)
  | inr h ↦ absurd (let e' = rw h at e in cc)
]

-- What parse_port makes of the whole text.
whole :
    (authority : Bytes) (o : Option (ℕ × Bytes)) (n : ℕ)
    → whole_port authority o ≡ parsed n
    → (o ≡ some (n, [])) × (1 ≤ n)
unfolding whole_port
whole authority none n e = cc
whole authority (some (m, c ∷ cs)) n e = cc
whole authority (some (m, [])) n e = elim (Bool-cases (m == 0)) [
  | inl h ↦ absurd (let e' = rw h at e in cc)
  | inr h ↦
      let q : m ≡ n = (let e' = rw h at e in cc) in
      (ap (λ (k : ℕ). some (k, [])) q, ground (arith, h, q))
]

-- A port that is written in a URL is accepted exactly when its text is of digits only and their decimal value is at
-- least 1 and at most 65535; leading zeros do not matter.
pub parse_port-parsed :
    (authority : Bytes) (use_ssl : Bool) (c : ℕ) (cs : Bytes) (n : ℕ)
    → (parse_port authority use_ssl (c ∷ cs) ≡ parsed n)
      ↔ ((all_digits (c ∷ cs) ≡ true) × (decimal 0 (c ∷ cs) ≡ n) × (1 ≤ n) × (n ≤ 65535))
unfolding parse_port whole_port
parse_port-parsed authority use_ssl c cs n = (
  λ e.
      let w = whole authority (from_chars (c ∷ cs)) n e in
      let s = from_chars-scanned c cs n w.0 in
      let d = scanned_whole (c ∷ cs) 0 n s in
      let v = ap (λ (r : ℕ × Bytes). r.0) (sym (scanned (c ∷ cs) 0 d) ∙ s) in
      (d, v, w.1, omega (arith, from_chars-lt (c ∷ cs) n [] w.0)),
  λ p.
      let z : (n == 0) ≡ false = ground (arith, p.2) in
      rw (from_chars-whole c cs n p.0 p.1 (omega (arith, p.3)), z) refl,
)
