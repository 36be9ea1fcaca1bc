-- ===== src/Url/Port.antt =====
-- std::from_chars and std::to_chars in base 10, for uint16_t.
pub mod Digits
use slick_net.Url.Text.{Avoids}
use slick_net.Prelude.{
  ℕ, zero, suc, ◌+◌, ◌-◌, ◌*◌, ◌/◌, ◌%◌, ◌≤◌, ◌<◌, ◌≡◌, refl, ap, ◌∙◌, dec_lt, Bool, true, false,
  ◌&&◌, [], ◌∷◌, ◌++◌, Option, none, some, arith, Bytes, leb, ltb, if◌then◌else◌,
}

pub is_digit : ℕ → Bool
is_digit c = leb b'0' c && leb c b'9'

-- The digits at the front of a text, read after those that make `value`, and what follows them.
pub scan_digits : ℕ → Bytes → ℕ × Bytes
unfolding is_digit
scan_digits value [] = (value, [])
scan_digits value (c ∷ cs) =
    let rest = scan_digits (10 * value + (c - b'0')) cs in
    if is_digit c then rest else (value, c ∷ cs)

-- from_chars into a uint16_t: the value and the text from `ptr` on; `none` is invalid_argument (no
-- digit) or result_out_of_range.
from_digits : ℕ × Bytes → Option (ℕ × Bytes)
from_digits (value, rest) = if ltb value 65536 then some (value, rest) else none

unfoldable pub from_chars : Bytes → Option (ℕ × Bytes)
unfolding scan_digits from_digits
from_chars [] = none
from_chars (c ∷ cs) = if is_digit c then from_digits (scan_digits 0 (c ∷ cs)) else none

-- The digits of a number below 10 ^ fuel, in front of `behind`.
pub digits_onto : ℕ → ℕ → Bytes → Bytes
digits_onto zero n behind = behind
digits_onto (suc fuel) n behind =
    let more = digits_onto fuel (n / 10) ((b'0' + n % 10) ∷ behind) in
    if ltb n 10 then (b'0' + n) ∷ behind else more

-- to_chars of a uint16_t, which has five digits at most.
unfoldable pub to_chars : ℕ → Bytes
unfolding digits_onto
to_chars n = digits_onto 5 n []

test_to_chars : to_chars 8080 ++ to_chars 7 ≡ b'8' ∷ b'0' ∷ b'8' ∷ b'0' ∷ b'7' ∷ []
unfolding to_chars
test_to_chars = refl

abbrev power : ℕ → ℕ
power zero = 1
power (suc fuel) = 10 * power fuel

-- What reading the digits of `n` multiplies the value before them by.
abbrev weight : ℕ → ℕ → ℕ
weight zero n = 1
weight (suc fuel) n = if ltb n 10 then 10 else 10 * weight fuel (n / 10)

scan_digits-cons :
    (d v : ℕ) (cs : Bytes) → d < 10 → scan_digits v ((b'0' + d) ∷ cs) ≡ scan_digits (10 * v + d) cs
unfolding scan_digits
scan_digits-cons d v cs h = ground arith

digits_onto-small :
    (fuel n : ℕ) (behind : Bytes) → n < 10 → digits_onto (suc fuel) n behind ≡ (b'0' + n) ∷ behind
unfolding digits_onto
digits_onto-small fuel n behind h = ground arith

digits_onto-large :
    (fuel n : ℕ) (behind : Bytes)
    → 10 ≤ n
    → digits_onto (suc fuel) n behind ≡ digits_onto fuel (n / 10) ((b'0' + n % 10) ∷ behind)
unfolding digits_onto
digits_onto-large fuel n behind h = ground arith

weight-large : (fuel n : ℕ) → 10 ≤ n → weight (suc fuel) n ≡ 10 * weight fuel (n / 10)
weight-large fuel n h = ground arith

weight-small : (fuel n : ℕ) → n < 10 → weight (suc fuel) n ≡ 10
weight-small fuel n h = ground arith

scan_digits-digits_onto :
    (fuel n v : ℕ) (behind : Bytes)
    → n < power fuel
    → scan_digits v (digits_onto fuel n behind) ≡ scan_digits (v * weight fuel n + n) behind
scan_digits-digits_onto zero n v behind h =
    unfold digits_onto in ap (λ (k : ℕ). scan_digits k behind) {x = v} {y = v * 1 + n} (omega arith)
scan_digits-digits_onto (suc fuel) n v behind h = elim (dec_lt n 10) [
  | yes l ↦
      rw (digits_onto-small fuel n behind l, weight-small fuel n l)
        (scan_digits-cons n v behind l ∙ ap (λ (k : ℕ). scan_digits k behind) (omega arith))
  | no l ↦
      rw (digits_onto-large fuel n behind (omega arith), weight-large fuel n (omega arith))
        (scan_digits-digits_onto fuel (n / 10) v ((b'0' + n % 10) ∷ behind) (omega arith)
          ∙ scan_digits-cons (n % 10) (v * weight fuel (n / 10) + n / 10) behind (omega arith)
          ∙ ap (λ (k : ℕ). scan_digits k behind) (omega arith))
]

-- The first digit that to_chars writes.
digits_onto-head :
    (fuel n : ℕ) (behind : Bytes)
    → n < power (suc fuel)
    → (c : ℕ) × (cs : Bytes) × (digits_onto (suc fuel) n behind ≡ c ∷ cs) × (is_digit c ≡ true)
digits_onto-head zero n behind h =
    (b'0' + n, behind, digits_onto-small 0 n behind (omega arith), unfold is_digit in ground arith)
digits_onto-head (suc fuel) n behind h = elim (dec_lt n 10) [
  | yes l ↦
      (b'0' + n, behind, digits_onto-small (suc fuel) n behind l, unfold is_digit in ground arith)
  | no l ↦
      let (c, cs, e, d) = digits_onto-head fuel (n / 10) ((b'0' + n % 10) ∷ behind) (omega arith) in
      (c, cs, digits_onto-large (suc fuel) n behind (omega arith) ∙ e, d)
]

from_chars-digit :
    (bs : Bytes) (c : ℕ) (cs : Bytes)
    → bs ≡ c ∷ cs
    → is_digit c ≡ true
    → from_chars bs ≡ from_digits (scan_digits 0 bs)
unfolding from_chars
from_chars-digit bs c cs e d = rw (e, d)

from_digits-scanned :
    (w k : ℕ) → k < 65536 → from_digits (scan_digits (0 * w + k) []) ≡ some (k, [])
unfolding from_digits scan_digits
from_digits-scanned w k l = ground arith

pub to_chars-cons :
    (n : ℕ) → n < 65536 → (c : ℕ) × (cs : Bytes) × (to_chars n ≡ c ∷ cs) × (is_digit c ≡ true)
unfolding to_chars
to_chars-cons n h = digits_onto-head 4 n [] (omega arith)

-- from_chars reads back what to_chars writes, and stops there, for every uint16_t.
pub from_chars-to_chars : (n : ℕ) → n < 65536 → from_chars (to_chars n) ≡ some (n, [])
from_chars-to_chars n h =
    let (c, cs, e, d) = to_chars-cons n h in
    unfold to_chars in
    (from_chars-digit (digits_onto 5 n []) c cs e d
      ∙ ap from_digits (scan_digits-digits_onto 5 n 0 [] (omega arith))
      ∙ from_digits-scanned (weight 5 n) n h)

pub to_chars-Avoids :
    (p : ℕ → Bool) (n : ℕ)
    → ((d : ℕ) → d < 10 → p (b'0' + d) ≡ false)
    → n < 65536
    → Avoids p (to_chars n)
to_chars-Avoids p n out h = unfold to_chars in digits_onto-Avoids 5 n [] (omega arith) tt
  where
    digits_onto-Avoids :
        (fuel k : ℕ) (behind : Bytes)
        → k < power fuel
        → Avoids p behind
        → Avoids p (digits_onto fuel k behind)
    digits_onto-Avoids zero k behind l a = unfold digits_onto in a
    digits_onto-Avoids (suc fuel) k behind l a = elim (dec_lt k 10) [
      | yes s ↦ rw (digits_onto-small fuel k behind s) (out k s, a)
      | no s ↦ rw (digits_onto-large fuel k behind (omega arith)) (
          digits_onto-Avoids fuel (k / 10) ((b'0' + k % 10) ∷ behind) (omega arith)
            (out (k % 10) (omega arith), a))
    ]

-- What from_chars accepts is a uint16_t.
pub from_chars-lt : (bs : Bytes) (n : ℕ) (rest : Bytes) → from_chars bs ≡ some (n, rest) → n < 65536
unfolding from_chars from_digits
from_chars-lt [] n rest e = cc
from_chars-lt (c ∷ cs) n rest e = ground arith
