-- ===== src/Url/Sample.antt =====
-- A URL that asks for TLS, and how it is read.
use slick_net.Prelude.{◌≡◌, refl, true, codes, Bytes}
use slick_net.Url.{
  UrlParts, Outcome, parsed, parse_websocket_url, to_lower, split_scheme, scheme_at, known_scheme,
  split_authority, bracketed, one_colon, before_colon, parse_port, whole_port, rooted, parse_rest,
  parse_url_parts, format_authority, format_host_header, parse_url, Parsed, same_letters,
  scheme_equals,
}

abbrev pub secure_text : Bytes
secure_text = codes "https://h/"

abbrev pub secure_url : Parsed
secure_url = record {
  host = codes "h";
  port = codes "443";
  target = codes "/";
  use_ssl = true;
  host_header = codes "h";
}

pub parse_url-secure : parse_url secure_text ≡ parsed secure_url
unfolding parse_url parse_url_parts split_scheme scheme_at known_scheme parse_rest split_authority
    bracketed one_colon before_colon parse_port whole_port rooted same_letters to_lower
    scheme_equals format_host_header format_authority slick_net.Url.Text.find
    slick_net.Url.Text.find_if slick_net.Url.Port.from_chars slick_net.Url.Port.to_chars
parse_url-secure = refl

abbrev pub socket_text : Bytes
socket_text = codes "wss://h/"

abbrev pub socket_parts : UrlParts
socket_parts = record { host = codes "h"; target = codes "/"; port = 443; use_ssl = true }

pub parse_websocket_url-secure : parse_websocket_url socket_text ≡ parsed socket_parts
unfolding parse_websocket_url parse_url_parts split_scheme scheme_at known_scheme parse_rest
    split_authority bracketed one_colon before_colon parse_port whole_port rooted same_letters
    to_lower scheme_equals slick_net.Url.Text.find slick_net.Url.Text.find_if
    slick_net.Url.Port.from_chars
parse_websocket_url-secure = refl

pub format_authority-sample : format_authority (codes "h") 443 ≡ codes "h:443"
unfolding format_authority slick_net.Url.Text.find_if slick_net.Url.Port.to_chars
format_authority-sample = refl
