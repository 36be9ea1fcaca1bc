-- ===== src/Url/RoundTrip.antt =====
-- A URL that is put together from parts is taken apart into them.
use slick_net.Prelude.{
  ℕ, ◌+◌, ◌<◌, ◌≡◌, ◌≢◌, refl, sym, ap, ◌∙◌, Bool, true, false, [], ◌∷◌, ◌++◌, none, some, arith,
  Bytes, ◌==◌, if◌then◌else◌, Bool-cases, length, ==_iff, inl, inr, append-nil, append_assoc,
}
use slick_net.Url.Text.{
  find_if, Avoids, Avoids-mono, Avoids-append, find_if-none, take-append, drop-append_more,
  find_if-cases,
}
use slick_net.Url.Port.{to_chars, from_chars-to_chars, to_chars-Avoids, to_chars-cons}
use slick_net.Url.Scheme.{IsScheme, scheme_equals_self, scheme_equals-ne}
use slick_net.Url.{
  UrlParts, parsed, is_slash_query, is_hash, is_colon, is_close, scheme_mark, known_scheme,
  split_authority, parse_port, default_port, parse_rest, parse_url_parts, format_authority,
  format_host_header,
}
use slick_net.Url.Pieces.{
  is_delimiter, IsParts, suffix, bracketed-suffix, plain-suffix, parse_port-some, parse_rest-parts,
  split_scheme-known,
}

-- The digits that format_authority prints.
abbrev digits_of : ℕ → Bytes
digits_of port = if port == 0 then [] else to_chars port

suffix-digits_of :
    (port : ℕ)
    → port < 65536
    → suffix (digits_of port) ≡ (if port == 0 then [] else b':' ∷ to_chars port)
suffix-digits_of port h = elim (Bool-cases (port == 0)) [
  | inl e ↦ rw e
  | inr e ↦ rw e (let (c, cs, t, d) = to_chars-cons port h in rw t)
]

format-ipv6 :
    (host : Bytes) (port pos : ℕ)
    → port < 65536
    → find_if is_colon host ≡ some pos
    → format_authority host port ≡ b'[' ∷ (host ++ b']' ∷ suffix (digits_of port))
unfolding format_authority
format-ipv6 host port pos h e =
    rw (e, suffix-digits_of port h)
      (elim (Bool-cases (port == 0)) [
        | inl z ↦ rw z
        | inr z ↦ rw z (ap (◌∷◌ b'[') (append_assoc host (b']' ∷ []) (b':' ∷ to_chars port)))
      ])

format-plain :
    (host : Bytes) (port : ℕ)
    → port < 65536
    → find_if is_colon host ≡ none
    → format_authority host port ≡ host ++ suffix (digits_of port)
unfolding format_authority
format-plain host port h e =
    rw (e, suffix-digits_of port h)
      (elim (Bool-cases (port == 0)) [ inl z ↦ rw z (sym (append-nil host)) | inr z ↦ rw z ])

digits_of-Avoids :
    (p : ℕ → Bool) (port : ℕ)
    → ((d : ℕ) → d < 10 → p (b'0' + d) ≡ false)
    → port < 65536
    → Avoids p (digits_of port)
digits_of-Avoids p port w h = elim (Bool-cases (port == 0)) [
  | inl z ↦ rw z tt
  | inr z ↦ rw z (to_chars-Avoids p port w h)
]

split_authority-format :
    (host : Bytes) (port : ℕ)
    → Avoids is_delimiter host
    → port < 65536
    → split_authority (format_authority host port) ≡ parsed (host, digits_of port)
split_authority-format host port a h = elim (find_if-cases is_colon host) [
  | inl (n, c) ↦ rw (format-plain host port h n) (
      plain-suffix host (digits_of port) a c
        (digits_of-Avoids is_colon port (λ d l. ground arith) h))
  | inr (pos, s) ↦ rw (format-ipv6 host port pos h s) (
      bracketed-suffix host (digits_of port)
        (Avoids-mono is_close is_delimiter host (λ c e. ground arith) a))
]

-- The printed authority has no byte of a kind that is neither in the host nor a bracket, colon or digit.
format_authority-Avoids :
    (p : ℕ → Bool) (host : Bytes) (port : ℕ)
    → Avoids p host
    → ((p b'[' ≡ false) × (p b']' ≡ false) × (p b':' ≡ false))
    → ((d : ℕ) → d < 10 → p (b'0' + d) ≡ false)
    → port < 65536
    → Avoids p (format_authority host port)
format_authority-Avoids p host port a (l, r, m) w h = elim (find_if-cases is_colon host) [
  | inl (n, c) ↦ rw (format-plain host port h n) (Avoids-append p host _ a rest)
  | inr (pos, s) ↦ rw (format-ipv6 host port pos h s) (l, Avoids-append p host _ a (r, rest))
]
  where
    rest : Avoids p (suffix (digits_of port))
    rest = rw (suffix-digits_of port h) (elim (Bool-cases (port == 0)) [
      | inl z ↦ rw z tt
      | inr z ↦ rw z (m, to_chars-Avoids p port w h)
    ])

-- The port that parse_port makes of what format_host_header prints.
header_port : UrlParts → ℕ
header_port parts = if parts.port == default_port parts.use_ssl then 0 else parts.port

header_port-lt : (parts : UrlParts) → IsParts parts → header_port parts < 65536
unfolding header_port
header_port-lt parts v = ground arith

parse_port-header :
    (authority : Bytes) (parts : UrlParts)
    → IsParts parts
    → parse_port authority parts.use_ssl (digits_of (header_port parts)) ≡ parsed parts.port
unfolding header_port
parse_port-header authority parts v = elim (Bool-cases (parts.port == default_port parts.use_ssl)) [
  | inl e ↦
      rw e (
        unfold parse_port in ap parsed (sym ((==_iff parts.port (default_port parts.use_ssl)).0 e)))
  | inr e ↦
      let n : (parts.port == 0) ≡ false = ground (arith, v.port_positive) in
      rw (e, n)
        (parse_port-some authority parts.use_ssl (to_chars parts.port) parts.port
          (from_chars-to_chars parts.port v.port_bound) v.port_positive)
]

format_host_header-Avoids :
    (parts : UrlParts) → IsParts parts → Avoids is_hash (format_host_header parts)
unfolding format_host_header header_port
format_host_header-Avoids parts v =
    format_authority-Avoids is_hash parts.host (header_port parts)
      (Avoids-mono is_hash is_delimiter parts.host (λ c e. ground arith) v.host_plain)
      (refl, refl, refl) (λ d l. ground arith) (header_port-lt parts v)

parse_rest-header :
    (parts : UrlParts)
    → IsParts parts
    → parse_rest parts.use_ssl (format_host_header parts ++ parts.target) ≡ parsed parts
unfolding format_host_header header_port
parse_rest-header parts v =
    parse_rest-parts parts.use_ssl (format_authority parts.host (header_port parts)) parts.host
      (digits_of (header_port parts)) parts.target v.target_rest parts.port
      (format_authority-Avoids is_slash_query parts.host (header_port parts)
        (Avoids-mono is_slash_query is_delimiter parts.host (λ c e. ground arith) v.host_plain)
        (refl, refl, refl) (λ d l. ground arith) (header_port-lt parts v))
      (split_authority-format parts.host (header_port parts) v.host_plain (header_port-lt parts v))
      (parse_port-header (format_authority parts.host (header_port parts)) parts v) v.target_rooted

module _ (plain secure : Bytes) (p : IsScheme plain) (s : IsScheme secure)
    (n : plain ≢ secure) where
  -- The scheme of a connection without or with TLS.
  abbrev scheme_of : Bool → Bytes
  scheme_of use_ssl = if use_ssl then secure else plain

  scheme_of-IsScheme : (use_ssl : Bool) → IsScheme (scheme_of use_ssl)
  scheme_of-IsScheme true = s
  scheme_of-IsScheme false = p

  known_scheme-scheme_of :
      (use_ssl : Bool) (rest : Bytes)
      → known_scheme
          (scheme_of use_ssl ++ (scheme_mark ++ rest))
          plain
          secure
          (length (scheme_of use_ssl))
        ≡ parsed (use_ssl, rest)
  unfolding known_scheme
  known_scheme-scheme_of true rest = rw (
    take-append secure (scheme_mark ++ rest),
    drop-append_more secure (scheme_mark ++ rest) 3,
    scheme_equals_self secure s,
  )
  known_scheme-scheme_of false rest = rw (
    take-append plain (scheme_mark ++ rest),
    drop-append_more plain (scheme_mark ++ rest) 3,
    scheme_equals-ne plain secure p n,
    scheme_equals_self plain p,
  )

  parse-scheme_of :
      (use_ssl : Bool) (rest : Bytes)
      → Avoids is_hash rest
      → parse_url_parts (scheme_of use_ssl ++ (scheme_mark ++ rest)) plain secure
        ≡ parse_rest use_ssl rest
  unfolding parse_url_parts
  parse-scheme_of use_ssl rest a =
      rw
        (
          split_scheme-known (scheme_of use_ssl) rest plain secure (scheme_of-IsScheme use_ssl),
          known_scheme-scheme_of use_ssl rest,
        )
        (rw (find_if-none is_hash rest a))

  -- A URL with one of the two schemes, the Host header of valid parts and their target is read back as
  -- those parts, the default port and IPv6 literals included. The schemes differ, and are of lower case
  -- letters.
  pub parse_url_parts-format :
      (parts : UrlParts)
      → IsParts parts
      → parse_url_parts
          (scheme_of parts.use_ssl ++ (scheme_mark ++ (format_host_header parts ++ parts.target)))
          plain
          secure
        ≡ parsed parts
  parse_url_parts-format parts v =
      parse-scheme_of parts.use_ssl (format_host_header parts ++ parts.target) (
        Avoids-append is_hash (format_host_header parts) parts.target
          (format_host_header-Avoids parts v) v.target_plain)
      ∙ parse_rest-header parts v
