-- ===== src/Url/Pieces.antt =====
-- How the parser reads the pieces of a URL that is written from parts.
use slick_net.Prelude.{
  ℕ, suc, ◌+◌, ◌-◌, ◌≤◌, ◌<◌, ◌≡◌, refl, ap, Bool, false, ◌||◌, [], ◌∷◌, ◌++◌, some, arith, Bytes,
  ◌==◌, ltb, length, length-append, lt→ltb, take, drop, get_elem?, append-nil,
}
use slick_net.Url.Text.{
  find_if, Avoids, Avoids-mono, find_if-none, find_if-append, find-append, take-append, drop-append,
  drop-append_more, find_if-append_second, get_elem?-append, starts_with,
}
use native.Mathlib.Nat.{suc-add}
use slick_net.Url.Port.{from_chars}
use slick_net.Url.Scheme.{is_no_letter, IsScheme}
use slick_net.Url.{
  UrlParts, parsed, is_slash_query_hash, is_slash_query, is_hash, is_colon, is_close, scheme_mark,
  split_scheme, scheme_at, known_scheme, split_authority, bracketed, one_colon, before_colon,
  parse_port, rooted, parse_rest,
}

-- A byte that ends or brackets a host.
abbrev pub is_delimiter : ℕ → Bool
is_delimiter c = c == b'/' || (c == b'?' || (c == b'#' || (c == b'[' || c == b']')))

-- The parts of a URL that can be written: no delimiter in the host, a port, a target without fragment
-- that starts with a slash.
pub record IsParts (parts : UrlParts) : Type 0 where
  pub host_plain : Avoids is_delimiter parts.host
  pub port_positive : 1 ≤ parts.port
  pub port_bound : parts.port < 65536
  pub target_rest : Bytes
  pub target_rooted : parts.target ≡ b'/' ∷ target_rest
  pub target_plain : Avoids is_hash parts.target

-- What stands behind the host: nothing, or a colon and digits.
abbrev pub suffix : Bytes → Bytes
suffix [] = []
suffix (c ∷ cs) = b':' ∷ c ∷ cs

ltb-ge : (a b : ℕ) → b ≤ a → ltb a b ≡ false
ltb-ge a b h = ground arith

take-close : (host b : Bytes) → take (suc (length host) - 1) (host ++ b) ≡ host
take-close host b =
    rw (let e : suc (length host) - 1 ≡ length host = omega arith in e) (take-append host b)

-- What stands behind the closing bracket.
get_elem?-close :
    (host b : Bytes)
    → get_elem? (b'[' ∷ (host ++ (b']' ∷ b':' ∷ b))) (suc (length host) + 1) ≡ some b':'
get_elem?-close host b = rw (suc-add (length host) 1) (get_elem?-append host (b']' ∷ b':' ∷ b) 1)

drop-close :
    (host b : Bytes) → drop (suc (length host) + 2) (b'[' ∷ (host ++ (b']' ∷ b':' ∷ b))) ≡ b
drop-close host b = rw (suc-add (length host) 2) (drop-append_more host (b']' ∷ b':' ∷ b) 2)

pub bracketed-suffix :
    (host digits : Bytes)
    → Avoids is_close host
    → split_authority (b'[' ∷ (host ++ (b']' ∷ suffix digits))) ≡ parsed (host, digits)
unfolding split_authority
bracketed-suffix host [] h = rw (find_if-append is_close (b'[' ∷ host) b']' [] (refl, h) refl) (
    unfold bracketed in
    rw
      (ltb-ge (suc (length host) + 1) (suc (length (host ++ b']' ∷ [])))
        (omega (arith, length-append host (b']' ∷ []))))
      (ap (λ (x : Bytes). parsed (x, [])) (take-close host (b']' ∷ []))))
bracketed-suffix host (c ∷ cs) h =
    rw (find_if-append is_close (b'[' ∷ host) b']' (b':' ∷ c ∷ cs) (refl, h) refl) (
      unfold bracketed in
      rw
        (lt→ltb (suc (length host) + 1) (suc (length (host ++ b']' ∷ b':' ∷ c ∷ cs)))
          (omega (arith, length-append host (b']' ∷ b':' ∷ c ∷ cs))))
        (rw (get_elem?-close host (c ∷ cs), drop-close host (c ∷ cs))
          (ap (λ (x : Bytes). parsed (x, c ∷ cs)) (take-close host (b']' ∷ b':' ∷ c ∷ cs)))))

one_colon-only :
    (a digits : Bytes)
    → Avoids is_colon digits
    → one_colon (a ++ b':' ∷ digits) (some (length a)) ≡ (a, digits)
unfolding one_colon
one_colon-only a digits d =
    rw (drop-append_more a (b':' ∷ digits) 1, find_if-none is_colon digits d)
      (unfold before_colon in
        rw (take-append a (b':' ∷ digits), drop-append_more a (b':' ∷ digits) 1))

pub plain-suffix :
    (host digits : Bytes)
    → Avoids is_delimiter host
    → Avoids is_colon host
    → Avoids is_colon digits
    → split_authority (host ++ suffix digits) ≡ parsed (host, digits)
unfolding split_authority
plain-suffix [] [] h c d = rw (find_if-none is_colon [] tt) (unfold one_colon in refl)
plain-suffix [] (x ∷ digits) h c d =
    rw (find_if-append is_colon [] b':' (x ∷ digits) tt refl)
      (ap parsed (one_colon-only [] (x ∷ digits) d))
plain-suffix (y ∷ host) [] h c d = rw append-nil (
    let n : (y == b'[') ≡ false = ground arith in
    rw n (rw (find_if-none is_colon (y ∷ host) c) (unfold one_colon in refl)))
plain-suffix (y ∷ host) (x ∷ digits) h c d =
    let n : (y == b'[') ≡ false = ground arith in
    rw n (
      rw (find_if-append is_colon (y ∷ host) b':' (x ∷ digits) c refl)
        (ap parsed (one_colon-only (y ∷ host) (x ∷ digits) d)))

pub parse_port-some :
    (authority : Bytes) (use_ssl : Bool) (digits : Bytes) (n : ℕ)
    → from_chars digits ≡ some (n, [])
    → 1 ≤ n
    → parse_port authority use_ssl digits ≡ parsed n
unfolding parse_port
parse_port-some authority use_ssl [] n e h = unfold from_chars in cc
parse_port-some authority use_ssl (c ∷ cs) n e h = rw e (ground arith)

-- Behind the scheme: an authority and a target.
pub parse_rest-parts :
    (use_ssl : Bool) (authority host digits target t : Bytes) (n : ℕ)
    → Avoids is_slash_query authority
    → split_authority authority ≡ parsed (host, digits)
    → parse_port authority use_ssl digits ≡ parsed n
    → target ≡ b'/' ∷ t
    → parse_rest use_ssl (authority ++ target)
      ≡ parsed (record { host = host; target = target; port = n; use_ssl = use_ssl })
unfolding parse_rest
parse_rest-parts use_ssl authority host digits target t n a s p r =
    rw (r, find_if-append is_slash_query authority b'/' t a refl)
      (rw (take-append authority (b'/' ∷ t), drop-append authority (b'/' ∷ t), s)
        (rw p (unfold rooted in refl)))

letters :
    (s : Bytes) (p : ℕ → Bool)
    → ((c : ℕ) → is_no_letter c ≡ false → p c ≡ false)
    → IsScheme s
    → Avoids p s
letters s p w h = Avoids-mono p is_no_letter s w h

slash-at :
    (scheme rest : Bytes)
    → IsScheme scheme
    → find_if is_slash_query_hash (scheme ++ (scheme_mark ++ rest)) ≡ some (suc (length scheme))
slash-at scheme rest h =
    find_if-append_second is_slash_query_hash scheme b':' b'/' (b'/' ∷ rest)
      (letters scheme is_slash_query_hash (λ c e. ground arith) h) refl refl

pub split_scheme-known :
    (scheme rest plain secure : Bytes)
    → IsScheme scheme
    → split_scheme (scheme ++ (scheme_mark ++ rest)) plain secure
      ≡ known_scheme (scheme ++ (scheme_mark ++ rest)) plain secure (length scheme)
unfolding split_scheme starts_with
split_scheme-known scheme rest plain secure h =
    rw
      (find-append scheme b':' (b'/' ∷ b'/' ∷ []) (b'/' ∷ b'/' ∷ rest)
        (letters scheme is_colon (λ c e. ground arith) h) refl)
      (unfold scheme_at in
        rw (slash-at scheme rest h, lt→ltb (length scheme) (suc (length scheme)) (omega arith))
          refl)
