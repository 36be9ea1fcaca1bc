-- ===== src/HttpRequest/Session/Tests.antt =====
-- A request to a URL that asks for TLS.
use slick_net.Prelude.{◌≡◌, refl, true, [], Bytes, Option, none, codes}
use slick_net.Url.Sample.{secure_text, secure_url, parse_url-secure}
use slick_net.Tls.{set_tls_peer_host, ip_set, name_set}
use slick_net.HttpRequest.{Call, get_verb}
use slick_net.HttpRequest.Session.{
  do_session, session_for, ssl_session, ssl_connected, handshake_answer, exchange,
}
use slick_net.HttpRequest.Session.Verified.{has_sent, do_session-verified}
use slick_net.Tls.PeerHost.{IsBound}
use slick_net.Examples.{peer_api, fields_api, request_net}

abbrev call : Call
call = record { verb = get_verb; body = []; version = 11 }

secure_sent :
    has_sent peer_api fields_api (do_session peer_api fields_api request_net secure_text call []).1
    ≡ true
unfolding do_session session_for ssl_session ssl_connected handshake_answer exchange
    set_tls_peer_host ip_set name_set
secure_sent = rw parse_url-secure refl

do_session-verified_example :
    (handle : Option Bytes × Option Bytes) × IsBound peer_api (codes "h") (none, none) handle
    × (request_net.handshake handle ≡ none)
do_session-verified_example =
    do_session-verified peer_api fields_api request_net secure_text call [] secure_url
      parse_url-secure refl secure_sent
