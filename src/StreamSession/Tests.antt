-- ===== src/StreamSession/Tests.antt =====
-- A stream over TLS that is closed while it connects, and one that is not.
use slick_net.Prelude.{◌≤◌, ◌≡◌, refl, true, false, [], Bytes, Option, none, codes, length}
use slick_net.Tls.PeerHost.{IsBound}
use slick_net.HttpRequest.Session.{done}
use slick_net.StreamSession.{
  streaming, whole_session, serve_body, shut_down, stream_session, throw_if_closed, ssl_response,
  ssl_connected, send_request, handshake_answer, reply_to,
}
use slick_net.StreamSession.Steps.{is_failed, last_check, closed_stops}
use slick_net.StreamSession.Verified.{request_sent}
use slick_net.StreamSession.Shut.{has_shut}
use slick_net.StreamSession.Constructed.{
  construct, made_of, session_of, url_session, url_session-IsVerified,
}
use slick_net.Url.Sample.{secure_text, secure_url, parse_url-secure}
use slick_net.Tls.{set_tls_peer_host, ip_set, name_set}
use slick_net.Examples.{peer_api, fields_api, closed_net, open_net, target}

closed_stops_example :
    (length (stream_session peer_api fields_api true closed_net target).1 ≤ 2)
    × (2 ≤ last_check true
        → is_failed (stream_session peer_api fields_api true closed_net target).0 ≡ true)
closed_stops_example = closed_stops peer_api fields_api closed_net target true 2 refl

url_sent :
    request_sent peer_api fields_api open_net target
      (url_session peer_api fields_api open_net secure_text []).1
    ≡ true
unfolding url_session session_of construct made_of stream_session ssl_connected ssl_response
    send_request throw_if_closed handshake_answer reply_to set_tls_peer_host ip_set name_set
url_sent = rw parse_url-secure refl

url_session-IsVerified_example :
    (handle : Option Bytes × Option Bytes) × IsBound peer_api (codes "h") (none, none) handle
    × (open_net.handshake handle ≡ none)
url_session-IsVerified_example =
    url_session-IsVerified peer_api fields_api open_net [] secure_text secure_url target
      parse_url-secure refl url_sent

test_shut :
    ((whole_session peer_api fields_api true open_net target).0 ≡ done tt)
    × (has_shut peer_api fields_api (whole_session peer_api fields_api true open_net target).1
        ≡ true)
    × (has_shut peer_api fields_api (whole_session peer_api fields_api true closed_net target).1
        ≡ false)
unfolding whole_session serve_body shut_down stream_session ssl_connected ssl_response send_request
    throw_if_closed handshake_answer reply_to set_tls_peer_host ip_set name_set
test_shut = (refl, refl, refl)

test_open : (stream_session peer_api fields_api true open_net target).0 ≡ done (streaming true)
unfolding stream_session ssl_connected ssl_response send_request throw_if_closed handshake_answer
    reply_to set_tls_peer_host ip_set name_set
test_open = refl
