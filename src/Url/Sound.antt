-- ===== src/Url/Sound.antt =====
-- What an accepted URL looks like.
use slick_net.Prelude.{
  ℕ, zero, suc, ◌+◌, ◌-◌, ◌≤◌, ◌<◌, ◌≡◌, refl, ap, Bool, true, false, [], ◌∷◌, Option, none, some,
  arith, Bytes, ◌==◌, Bool-cases, ==_iff, take, drop, inl, inr,
}
use mathlib.Core.Option
use slick_net.Url.Text.{find_if, before, from, Avoids}
use slick_net.Url.Port.{from_chars, from_chars-lt}
use slick_net.Url.{
  UrlParts, Outcome, parsed, refused, ◌>>=◌, is_slash_query, is_hash, is_colon, is_close,
  split_scheme, split_authority, bracketed, one_colon, before_colon, parse_port, whole_port, rooted,
  parse_rest, parse_url_parts,
}

-- A chain that parses has a first part that does.
parsed-bind {ℓ ℓ'} :
    {T : Type ℓ} {U : Type ℓ'} (first : Outcome T) (rest : T → Outcome U) {u : U}
    → (first >>= rest) ≡ parsed u
    → (t : T) × (first ≡ parsed t) × (rest t ≡ parsed u)
parsed-bind (refused why) rest e = cc
parsed-bind (parsed t) rest e = (t, refl, e)

parsed_injective {ℓ} : {A : Type ℓ} {a b : A} → parsed a ≡ parsed b → a ≡ b
parsed_injective e = cc

module _ (p : ℕ → Bool) where
  Avoids-take : (n : ℕ) (a : Bytes) → Avoids p a → Avoids p (take n a)
  Avoids-take zero a h = tt
  Avoids-take (suc n) [] h = tt
  Avoids-take (suc n) (c ∷ a) h = (h.0, Avoids-take n a h.1)

  Avoids-drop : (n : ℕ) (a : Bytes) → Avoids p a → Avoids p (drop n a)
  Avoids-drop zero a h = h
  Avoids-drop (suc n) [] h = tt
  Avoids-drop (suc n) (c ∷ a) h = Avoids-drop n a h.1

  Avoids-before : (a : Bytes) (o : Option ℕ) → Avoids p a → Avoids p (before a o)
  Avoids-before a none h = h
  Avoids-before a (some n) h = Avoids-take n a h

  Avoids-from : (a : Bytes) (o : Option ℕ) → Avoids p a → Avoids p (from a o)
  Avoids-from a none h = tt
  Avoids-from a (some n) h = Avoids-drop n a h

  before-map-suc :
      (c : ℕ) (a : Bytes) (o : Option ℕ) → before (c ∷ a) (Option.map suc o) ≡ c ∷ before a o
  before-map-suc c a none = refl
  before-map-suc c a (some n) = refl

  -- The text before the first byte that passes the test.
  Avoids-before-find_if : (a : Bytes) → Avoids p (before a (find_if p a))
  unfolding find_if
  Avoids-before-find_if [] = tt
  Avoids-before-find_if (c ∷ a) = elim (Bool-cases (p c)) [
    | inl e ↦ rw e tt
    | inr e ↦ rw e (rw (before-map-suc c a (find_if p a)) (e, Avoids-before-find_if a))
  ]

  before_colon-Avoids :
      (a : Bytes) (n : ℕ) (o : Option ℕ) → Avoids p a → Avoids p (before_colon a n o).0
  unfolding before_colon
  before_colon-Avoids a n none h = Avoids-take n a h
  before_colon-Avoids a n (some m) h = h

  one_colon-Avoids : (a : Bytes) (o : Option ℕ) → Avoids p a → Avoids p (one_colon a o).0
  unfolding one_colon
  one_colon-Avoids a none h = h
  one_colon-Avoids a (some n) h = before_colon-Avoids a n (find_if is_colon (drop (n + 1) a)) h

  bracketed-Avoids :
      (a : Bytes) (o : Option ℕ) (r : Bytes × Bytes)
      → Avoids p a
      → bracketed a o ≡ parsed r
      → Avoids p r.0
  unfolding bracketed
  bracketed-Avoids a none r h e = cc
  bracketed-Avoids a (some n) r h e =
      let good : take (n - 1) (drop 1 a) ≡ r.0 = ground arith in
      rw (← good) (Avoids-take (n - 1) (drop 1 a) (Avoids-drop 1 a h))

  split_authority-Avoids :
      (a : Bytes) (r : Bytes × Bytes) → Avoids p a → split_authority a ≡ parsed r → Avoids p r.0
  unfolding split_authority
  split_authority-Avoids [] r h e =
      rw (← ap (λ (x : Bytes × Bytes). x.0) (parsed_injective e))
        (one_colon-Avoids [] (find_if is_colon []) h)
  split_authority-Avoids (c ∷ cs) r h e = elim (Bool-cases (c == b'[')) [
    | inl t ↦ bracketed-Avoids (c ∷ cs) (find_if is_close (c ∷ cs)) r h (rw t at e)
    | inr t ↦
        rw (← ap (λ (x : Bytes × Bytes). x.0) (parsed_injective (rw t at e)))
          (one_colon-Avoids (c ∷ cs) (find_if is_colon (c ∷ cs)) h)
  ]

-- A target starts with a slash.
rooted-slash : (t : Bytes) → (rest : Bytes) × (rooted t ≡ b'/' ∷ rest)
unfolding rooted
rooted-slash [] = ([], refl)
rooted-slash (c ∷ cs) = elim (Bool-cases (c == b'/')) [
  | inl e ↦ (cs, rw e (ap (λ (d : ℕ). d ∷ cs) ((==_iff c b'/').0 e)))
  | inr e ↦ (c ∷ cs, rw e)
]

rooted-Avoids : (p : ℕ → Bool) (t : Bytes) → p b'/' ≡ false → Avoids p t → Avoids p (rooted t)
unfolding rooted
rooted-Avoids p [] s h = (s, tt)
rooted-Avoids p (c ∷ cs) s h = elim (Bool-cases (c == b'/')) [
  | inl e ↦ rw e h
  | inr e ↦ rw e (s, h)
]

whole_port-range :
    (authority : Bytes) (o : Option (ℕ × Bytes)) (n : ℕ)
    → ((m : ℕ) (rest : Bytes) → o ≡ some (m, rest) → m < 65536)
    → whole_port authority o ≡ parsed n
    → (1 ≤ n) × (n < 65536)
unfolding whole_port
whole_port-range authority none n h e = cc
whole_port-range authority (some (m, [])) n h e = ground (arith, h m [] refl)
whole_port-range authority (some (m, c ∷ cs)) n h e = cc

parse_port-range :
    (authority : Bytes) (use_ssl : Bool) (digits : Bytes) (n : ℕ)
    → parse_port authority use_ssl digits ≡ parsed n
    → (1 ≤ n) × (n < 65536)
unfolding parse_port
parse_port-range authority true [] n e = ground arith
parse_port-range authority false [] n e = ground arith
parse_port-range authority use_ssl (c ∷ cs) n e =
    whole_port-range authority (from_chars (c ∷ cs)) n (λ m rest t. from_chars-lt (c ∷ cs) m rest t)
      e

-- The form of an accepted URL: a host without slash, question mark or hash, a port that a uint16_t
-- holds and that is not zero, and a target without fragment that starts with a slash.
pub record IsAccepted (parts : UrlParts) : Type 0 where
  pub host_plain : Avoids is_slash_query parts.host
  pub host_no_hash : Avoids is_hash parts.host
  pub port_positive : 1 ≤ parts.port
  pub port_bound : parts.port < 65536
  pub target_rest : Bytes
  pub target_rooted : parts.target ≡ b'/' ∷ target_rest
  pub target_plain : Avoids is_hash parts.target

parse_rest-IsAccepted :
    (use_ssl : Bool) (url : Bytes) {parts : UrlParts}
    → Avoids is_hash url
    → parse_rest use_ssl url ≡ parsed parts
    → IsAccepted parts
unfolding parse_rest
parse_rest-IsAccepted use_ssl url {parts} a e =
    let end = find_if is_slash_query url in
    let (r, s, later) = parsed-bind (split_authority (before url end)) _ e in
    let (n, port, made) = parsed-bind (parse_port (before url end) use_ssl r.1) _ later in
    let range = parse_port-range (before url end) use_ssl r.1 n port in
    let (rest, slash) = rooted-slash (from url end) in
    rw (← parsed_injective made) (record {
      host_plain =
          split_authority-Avoids is_slash_query (before url end) r
            (Avoids-before-find_if is_slash_query url) s;
      host_no_hash =
          split_authority-Avoids is_hash (before url end) r (Avoids-before is_hash url end a) s;
      port_positive = range.0;
      port_bound = range.1;
      target_rest = rest;
      target_rooted = slash;
      target_plain = rooted-Avoids is_hash (from url end) refl (Avoids-from is_hash url end a);
    })

-- Every URL that is accepted, with whatever schemes, has that form.
pub parse_url_parts-IsAccepted :
    (url plain secure : Bytes) {parts : UrlParts}
    → parse_url_parts url plain secure ≡ parsed parts
    → IsAccepted parts
unfolding parse_url_parts
parse_url_parts-IsAccepted url plain secure e =
    let (r, s, later) = parsed-bind (split_scheme url plain secure) _ e in
    parse_rest-IsAccepted r.0 (before r.1 (find_if is_hash r.1)) (Avoids-before-find_if is_hash r.1)
      later
