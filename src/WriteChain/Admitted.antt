-- ===== src/WriteChain/Admitted.antt =====
-- Which sends are queued, and how long their records are.
use slick_net.Prelude.{
  ℕ, ◌+◌, ◌-◌, ◌%◌, ◌^◌, ◌≤◌, ◌≡◌, ◌↔◌, refl, sym, ap, ◌∙◌, Bool, true, false, if◌then◌else◌, ltb,
  arith,
}
use slick_net.WriteChain.{Status, is_past_connected, not_connected, too_long, admitted, admit}

no_wrap : (len : ℕ) → len ≤ 2 ^ 32 - 3 → (len % 2 ^ 32 + 2) % 2 ^ 32 ≡ len + 2
no_wrap len h = omega (arith, h)

some_length : (m n : ℕ) → admitted m ≡ admitted n → m ≡ n
some_length m n e = cc

fits : (len : ℕ) → ltb (2 ^ 32 - 1 - 2) len ≡ false → len ≤ 2 ^ 32 - 3
fits len e = ground (arith, e)

fits_not : (len : ℕ) → len ≤ 2 ^ 32 - 3 → ltb (2 ^ 32 - 1 - 2) len ≡ false
fits_not len h = ground (arith, h)

-- What the two tests decide.
tested :
    (p q : Bool) (m n : ℕ)
    → (if p then not_connected else if q then too_long else admitted m) ≡ admitted n
    → (p ≡ false) × (q ≡ false) × (m ≡ n)
tested true q m n e = absurd (ground (arith, e))
tested false true m n e = absurd (ground (arith, e))
tested false false m n e = (refl, refl, some_length m n e)

untested :
    (p q : Bool) (m n : ℕ)
    → p ≡ false
    → q ≡ false
    → m ≡ n
    → (if p then not_connected else if q then too_long else admitted m) ≡ admitted n
untested true q m n a b c = absurd (ground (arith, a))
untested false true m n a b c = absurd (ground (arith, b))
untested false false m n a b c = ap admitted c

-- A send is queued exactly when the WebSocket is not past CONNECTED and the payload has at most 2^32 - 3 bytes.
-- Its record, whose length is computed in 32 bits, then has the two flag bytes and the whole payload, with no
-- wrap-around.
pub admit-admitted :
    (status : Status) (len n : ℕ)
    → (admit status len ≡ admitted n)
      ↔ ((is_past_connected status ≡ false) × (len ≤ 2 ^ 32 - 3) × (n ≡ len + 2))
unfolding admit
admit-admitted status len n =
    let p = is_past_connected status in
    let q = ltb (2 ^ 32 - 1 - 2) len in
    let m = (len % 2 ^ 32 + 2) % 2 ^ 32 in
    (
      λ e. let t = tested p q m n e in let h = fits len t.1 in (t.0, h, sym t.2 ∙ no_wrap len h),
      λ t. untested p q m n t.0 (fits_not len t.1) (no_wrap len t.1 ∙ sym t.2),
    )
