-- ===== src/Url/Tests.antt =====
-- Small URLs, and the theorems at them.
use slick_net.Prelude.{◌≤◌, ◌≡◌, ◌↔◌, refl, true, false, ◌++◌, arith, codes}
use slick_net.Url.Pieces.{IsParts}
use slick_net.Url.RoundTrip.{parse_url_parts-format}
use slick_net.Url.Port.Digits.{decimal, all_digits, parse_port-parsed}
use slick_net.Url.Sound.{IsAccepted, parse_url_parts-IsAccepted}
use slick_net.Url.{
  UrlParts, Outcome, parsed, refused, unsupported_scheme, to_lower, scheme_equals, scheme_mark,
  same_letters, split_scheme, scheme_at, known_scheme, split_authority, bracketed, one_colon,
  before_colon, parse_port, whole_port, rooted, parse_rest, parse_url_parts, format_authority,
  format_host_header, parse_url, Parsed,
}

-- An IPv6 host with a port that is not the default one.
abbrev local : UrlParts
local = record { host = codes "::1"; target = codes "/ws?q"; port = 8443; use_ssl = true }

test_parse :
    parse_url_parts (codes "WSS://[::1]:8443/ws?q") (codes "ws") (codes "wss") ≡ parsed local
unfolding parse_url_parts split_scheme scheme_at known_scheme parse_rest split_authority bracketed
    parse_port whole_port rooted same_letters to_lower slick_net.Url.Text.find
    slick_net.Url.Text.find_if slick_net.Url.Port.from_chars
test_parse = refl

test_unsupported :
    parse_url_parts (codes "ftp://h") (codes "ws") (codes "wss")
    ≡ refused (unsupported_scheme (codes "ftp"))
unfolding parse_url_parts split_scheme scheme_at known_scheme same_letters to_lower
    slick_net.Url.Text.find slick_net.Url.Text.find_if
test_unsupported = refl

local-IsParts : IsParts local
local-IsParts = record {
  host_plain = (refl, (refl, (refl, tt)));
  port_positive = omega arith;
  port_bound = omega arith;
  target_rest = codes "ws?q";
  target_rooted = refl;
  target_plain = (refl, (refl, (refl, (refl, (refl, tt)))));
}

parse_url_parts-format_example :
    parse_url_parts
      (codes "wss" ++ (scheme_mark ++ (format_host_header local ++ local.target)))
      (codes "ws")
      (codes "wss")
    ≡ parsed local
parse_url_parts-format_example =
    parse_url_parts-format (codes "ws") (codes "wss") (refl, (refl, tt)) (refl, (refl, (refl, tt)))
      (λ e. cc) local local-IsParts

parse_url_parts-IsAccepted_example : IsAccepted local
parse_url_parts-IsAccepted_example =
    parse_url_parts-IsAccepted (codes "WSS://[::1]:8443/ws?q") (codes "ws") (codes "wss") test_parse

parse_port-parsed_example : (parse_port (codes "h:0443") false (codes "0443") ≡ parsed 443) ↔ (
    (all_digits (codes "0443") ≡ true)
    × (decimal 0 (codes "0443") ≡ 443)
    × (1 ≤ 443)
    × (443 ≤ 65535))
parse_port-parsed_example = parse_port-parsed (codes "h:0443") false b'0' (codes "443") 443
