-- ===== src/WebsocketConnect/Tests.antt =====
-- A session to a wss URL.
use slick_net.Prelude.{◌≡◌, refl, [], ◌∷◌, codes}
use slick_net.Url.Sample.{
  socket_text, socket_parts, parse_websocket_url-secure, format_authority-sample,
}
use slick_net.Tls.{set_tls_peer_host, ip_set, name_set}
use slick_net.WebsocketConnect.{
  ws_connect, connect_to, ssl_connect, secure_on, handshake_answer, upgrade_on,
}
use slick_net.WebsocketConnect.Upgraded.{upgrades, IsSecured, ws_connect-IsSecured}
use slick_net.Examples.{peer_api, socket_net}

socket_upgrades :
    upgrades peer_api socket_net socket_parts (ws_connect peer_api socket_net socket_text).1
    ≡ codes "h:443" ∷ []
unfolding ws_connect connect_to ssl_connect secure_on handshake_answer upgrade_on set_tls_peer_host
    ip_set name_set
socket_upgrades = rw (parse_websocket_url-secure, format_authority-sample) refl

ws_connect-IsSecured_example : IsSecured peer_api socket_net socket_parts (codes "h:443")
ws_connect-IsSecured_example =
    ws_connect-IsSecured peer_api socket_net socket_parts socket_text (codes "h:443")
      parse_websocket_url-secure refl socket_upgrades
