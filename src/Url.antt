-- ===== src/Url.antt =====
-- include/slick/net/detail/url.hpp, parse_url of src/utils.hpp and parse_websocket_url of
-- include/slick/net/detail/websocket_impl.hpp. A text is the list of its bytes.
pub mod Text
pub mod Port
pub mod Scheme
pub mod Pieces
pub mod RoundTrip
pub mod Sound
pub mod Sample
mod Tests
use slick_net.Prelude.{
  ℕ, zero, suc, ◌+◌, ◌-◌, Bool, true, false, not, ◌&&◌, ◌||◌, List, [], ◌∷◌, ◌++◌, Option, none,
  some, Bytes, codes, ◌==◌, ltb, leb, if◌then◌else◌, length, get_elem?, take, drop,
}
use Text.{find_if, find, before, from}
use Port.{from_chars, to_chars}

pub record UrlParts : Type 0 where
  pub host : Bytes
  pub target : Bytes
  pub port : ℕ  -- uint16_t
  pub use_ssl : Bool

-- The three messages of std::invalid_argument, with the text each one quotes.
pub data UrlError : Type 0 where
  unsupported_scheme invalid_ipv6 invalid_port : Bytes → UrlError

-- What a function returns, or the exception that it throws.
pub data Outcome {ℓ} (T : Type ℓ) : Type ℓ where
  refused : UrlError → Outcome T
  parsed : T → Outcome T

infixl 4 ◌>>=◌
abbrev pub ◌>>=◌ {ℓ ℓ'} : {T : Type ℓ} {U : Type ℓ'} → Outcome T → (T → Outcome U) → Outcome U
refused why >>= rest = refused why
parsed part >>= rest = rest part

-- `c >= 'A' && c <= 'Z' ? static_cast<char>(c + ('a' - 'A')) : c`
pub to_lower : ℕ → ℕ
to_lower c = if leb b'A' c && leb c b'Z' then c + (b'a' - b'A') else c

-- The loop of scheme_equals, from the index on that the suffixes start at.
same_letters : Bytes → Bytes → Bool
unfolding to_lower
same_letters [] expected = true
same_letters (c ∷ scheme) [] = false
same_letters (c ∷ scheme) (d ∷ expected) =
    if to_lower c == d then same_letters scheme expected else false

unfoldable pub scheme_equals : Bytes → Bytes → Bool
unfolding same_letters
scheme_equals scheme expected =
    if not (length scheme == length expected) then false else same_letters scheme expected

-- The sets of bytes that the searches look for.
abbrev pub is_slash_query_hash : ℕ → Bool
is_slash_query_hash c = c == b'/' || (c == b'?' || c == b'#')

abbrev pub is_slash_query : ℕ → Bool
is_slash_query c = c == b'/' || c == b'?'

abbrev pub is_hash : ℕ → Bool
is_hash c = c == b'#'

abbrev pub is_colon : ℕ → Bool
is_colon c = c == b':'

abbrev pub is_close : ℕ → Bool
is_close c = c == b']'

abbrev pub scheme_mark : Bytes
scheme_mark = codes "://"

-- `pos < end`, where `end` may be npos.
abbrev pub is_before : ℕ → Option ℕ → Bool
is_before pos none = true
is_before pos (some end) = ltb pos end

-- Once the mark is at `pos`: use_ssl, and the url with the prefix removed.
pub known_scheme : Bytes → Bytes → Bytes → ℕ → Outcome (Bool × Bytes)
unfolding scheme_equals
known_scheme url plain secure pos =
    let scheme = take pos url in
    if scheme_equals scheme secure
    then parsed (true, drop (pos + 3) url)
    else if scheme_equals scheme plain
    then parsed (false, drop (pos + 3) url)
    else refused (unsupported_scheme scheme)

scheme_at : Bytes → Bytes → Bytes → Option ℕ → Outcome (Bool × Bytes)
unfolding known_scheme
scheme_at url plain secure none = parsed (true, url)
scheme_at url plain secure (some pos) =
    if is_before pos (find_if is_slash_query_hash url)
    then known_scheme url plain secure pos
    else parsed (true, url)

pub split_scheme : Bytes → Bytes → Bytes → Outcome (Bool × Bytes)
unfolding scheme_at
split_scheme url plain secure = scheme_at url plain secure (find scheme_mark url)

abbrev pub is_port_mark : Option ℕ → Bool
is_port_mark none = false
is_port_mark (some c) = c == b':'

abbrev pub has_colon : Option ℕ → Bool
has_colon none = false
has_colon (some pos) = true

-- An authority that starts with `[`: the host between the brackets, and the port behind a colon.
bracketed : Bytes → Option ℕ → Outcome (Bytes × Bytes)
bracketed authority none = refused (invalid_ipv6 authority)
bracketed authority (some close) =
    if ltb (close + 1) (length authority) && not (is_port_mark (get_elem? authority (close + 1)))
    then refused (invalid_ipv6 authority)
    else parsed (
      take (close - 1) (drop 1 authority),
      if ltb (close + 1) (length authority) then drop (close + 2) authority else [],
    )

-- Any other authority: a port stands behind the only colon.
before_colon : Bytes → ℕ → Option ℕ → Bytes × Bytes
before_colon authority colon none = (take colon authority, drop (colon + 1) authority)
before_colon authority colon (some more) = (authority, [])

pub one_colon : Bytes → Option ℕ → Bytes × Bytes
unfolding before_colon
one_colon authority none = (authority, [])
one_colon authority (some colon) =
    before_colon authority colon (find_if is_colon (drop (colon + 1) authority))

-- Host and port of an authority.
pub split_authority : Bytes → Outcome (Bytes × Bytes)
unfolding bracketed one_colon
split_authority [] = parsed (one_colon [] (find_if is_colon []))
split_authority (c ∷ cs) =
    if c == b'['
    then bracketed (c ∷ cs) (find_if is_close (c ∷ cs))
    else parsed (one_colon (c ∷ cs) (find_if is_colon (c ∷ cs)))

abbrev pub default_port : Bool → ℕ
default_port use_ssl = if use_ssl then 443 else 80

-- from_chars must take the whole text, and zero is no port.
whole_port : Bytes → Option (ℕ × Bytes) → Outcome ℕ
whole_port authority (some (port, [])) =
    if port == 0 then refused (invalid_port authority) else parsed port
whole_port authority _ = refused (invalid_port authority)

pub parse_port : Bytes → Bool → Bytes → Outcome ℕ
unfolding whole_port
parse_port authority use_ssl [] = parsed (default_port use_ssl)
parse_port authority use_ssl (c ∷ cs) = whole_port authority (from_chars (c ∷ cs))

-- The request target starts with a slash.
pub rooted : Bytes → Bytes
rooted [] = b'/' ∷ []
rooted (c ∷ cs) = if c == b'/' then c ∷ cs else b'/' ∷ c ∷ cs

-- The url behind the scheme, without its fragment.
pub parse_rest : Bool → Bytes → Outcome UrlParts
parse_rest use_ssl url = do
  let end = find_if is_slash_query url
  let authority = before url end
  (host, port) ← split_authority authority
  number ← parse_port authority use_ssl port
  parsed (record { host = host; target = rooted (from url end); port = number; use_ssl = use_ssl })

pub parse_url_parts : Bytes → Bytes → Bytes → Outcome UrlParts
unfolding parse_rest
parse_url_parts url plain secure = do
  (use_ssl, rest) ← split_scheme url plain secure
  parse_rest use_ssl (before rest (find_if is_hash rest))

-- The port is left out when it is zero.
pub format_authority : Bytes → ℕ → Bytes
format_authority host port =
    let ipv6 = has_colon (find_if is_colon host) in
    let shown = if ipv6 then b'[' ∷ (host ++ b']' ∷ []) else host in
    if port == 0 then shown else shown ++ b':' ∷ to_chars port

pub format_host_header : UrlParts → Bytes
unfolding format_authority
format_host_header parts =
    format_authority parts.host (if parts.port == default_port parts.use_ssl then 0 else parts.port)

-- parse_url of src/utils.hpp; the port as its decimal digits (std::to_string).
pub record Parsed : Type 0 where
  pub host : Bytes
  pub target : Bytes
  pub port : Bytes
  pub use_ssl : Bool
  pub host_header : Bytes

pub parse_url : Bytes → Outcome Parsed
unfolding parse_url_parts format_host_header
parse_url url = do
  parts ← parse_url_parts url (codes "http") (codes "https")
  parsed (record {
    host = parts.host;
    target = parts.target;
    port = to_chars parts.port;
    use_ssl = parts.use_ssl;
    host_header = format_host_header parts;
  })

pub parse_websocket_url : Bytes → Outcome UrlParts
unfolding parse_url_parts
parse_websocket_url url = parse_url_parts url (codes "ws") (codes "wss")
