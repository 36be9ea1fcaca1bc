-- ===== src/Url/Scheme.antt =====
-- Schemes compare as texts in lower case.
use slick_net.Prelude.{
  ℕ, suc, ◌≡◌, ◌≢◌, ◌↔◌, refl, sym, ap, ◌∙◌, Bool, true, false, ◌||◌, [], ◌∷◌, map, arith, Bytes,
  ltb, Bool-cases, length, inl, inr,
}
use slick_net.Url.Text.{Avoids}
use slick_net.Url.{to_lower, same_letters, scheme_equals}

same_letters_sound :
    (s e : Bytes) → length s ≡ length e → same_letters s e ≡ true → map to_lower s ≡ e
unfolding same_letters
same_letters_sound [] [] l h = refl
same_letters_sound [] (d ∷ e) l h = absurd (omega arith)
same_letters_sound (c ∷ s) [] l h = absurd (omega arith)
same_letters_sound (c ∷ s) (d ∷ e) l h = ground (arith, same_letters_sound s e)

same_letters_complete : (s : Bytes) → same_letters s (map to_lower s) ≡ true
unfolding same_letters
same_letters_complete [] = refl
same_letters_complete (c ∷ s) = ground (arith, same_letters_complete s)

length-map-to_lower : (s : Bytes) → length (map to_lower s) ≡ length s
length-map-to_lower [] = refl
length-map-to_lower (c ∷ s) = ap suc (length-map-to_lower s)

-- scheme_equals holds exactly when the scheme, with its ASCII capitals in lower case, is the expected text.
pub scheme_equals_iff : (s e : Bytes) → (scheme_equals s e ≡ true) ↔ (map to_lower s ≡ e)
unfolding scheme_equals
scheme_equals_iff s e = (λ h. ground (arith, same_letters_sound s e), λ h. back h)
  where
    back : map to_lower s ≡ e → scheme_equals s e ≡ true
    back h = rw (← h) (ground (arith, length-map-to_lower s, same_letters_complete s))

-- A byte that no scheme of the library has: all are lower case letters.
abbrev pub is_no_letter : ℕ → Bool
is_no_letter c = ltb c b'a' || ltb b'z' c

abbrev pub IsScheme : Bytes → Type 0
IsScheme s = Avoids is_no_letter s

map-to_lower-IsScheme : (s : Bytes) → IsScheme s → map to_lower s ≡ s
unfolding to_lower
map-to_lower-IsScheme [] h = refl
map-to_lower-IsScheme (c ∷ s) h = ground (arith, map-to_lower-IsScheme s h.1)

pub scheme_equals_self : (s : Bytes) → IsScheme s → scheme_equals s s ≡ true
scheme_equals_self s h = (scheme_equals_iff s s).1 (map-to_lower-IsScheme s h)

pub scheme_equals-ne : (s e : Bytes) → IsScheme s → s ≢ e → scheme_equals s e ≡ false
scheme_equals-ne s e h n = elim (Bool-cases (scheme_equals s e)) [
  | inl t ↦ absurd (n (sym (map-to_lower-IsScheme s h) ∙ (scheme_equals_iff s e).0 t))
  | inr f ↦ f
]
