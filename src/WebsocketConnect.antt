-- ===== src/WebsocketConnect.antt =====
-- How a session of a WebSocket connects (include/slick/net/detail/websocket_impl.hpp): the URL that Impl is
-- constructed with, and what do_ws_session_ssl and do_ws_session_plain do on the network, in order, between their
-- first test and the test behind the handshakes. Those tests, and what follows, are in Session.
pub mod Upgraded
mod Tests
use slick_net.Prelude.{
  ℕ, ◌≡◌, Bool, true, false, List, [], ◌∷◌, ◌++◌, Option, none, some, Bytes, codes, if◌then◌else◌,
}
use slick_net.Url.{Outcome, parsed, refused, UrlParts, parse_websocket_url, format_authority}
use slick_net.Url.Port.{to_chars}
use slick_net.Tls.{PeerApi, TlsError, set_tls_peer_host, handshake_error}
use slick_net.HttpRequest.{url_error_text}
use slick_net.HttpRequest.Session.{Io, done, failed}

module _ (peer : PeerApi) where
  pub data Op : Type 0 where
    resolving : Bytes → Bytes → Op
    connecting : ℕ → Op
    handshaking : PeerApi.Handle peer → Op
    upgrading : Bytes → Bytes → Op  -- the WebSocket handshake, with its Host header and its path

  -- What the network and OpenSSL answer; a connection answers with the port of its endpoint.
  pub record Net : Type 0 where
    pub resolve : Bytes → Bytes → Io ℕ
    pub connect : ℕ → Io ℕ
    pub handshake : PeerApi.Handle peer → Option (ℕ × Bytes × Bytes)
    pub upgrade : Bytes → Bytes → Io (Unit {0})
    pub text_of : Bytes → Bytes → Bytes  -- what() of a system_error, by its two texts
    pub message_of : TlsError → Bytes
    pub fresh : PeerApi.Handle peer

  -- How the part of a session ends, and the operations that it made.
  abbrev pub Run : Type 0
  Run = Io (Unit {0}) × List Op

  infixl 4 ◌>>=◌
  abbrev ◌>>=◌ : {A : Type 0} → Io A × List Op → (A → Run) → Run
  (done a, ops) >>= rest = let (r, more) = rest a in (r, ops ++ more)
  (failed text, ops) >>= rest = (failed text, ops)

  handshake_answer : Net → Option (ℕ × Bytes × Bytes) → Io (Unit {0})
  handshake_answer net none = done tt
  handshake_answer net (some (verify_result, reason, text)) =
      failed (net.text_of (handshake_error verify_result reason) text)

  -- Behind the connection: the handshake of the WebSocket, with the port that was connected to.
  upgrade_on : Net → UrlParts → ℕ → Run
  upgrade_on net parts port =
      let host_header = format_authority parts.host port in
      (net.upgrade host_header parts.target, upgrading host_header parts.target ∷ [])

  -- Behind set_tls_peer_host.
  secure_on : Net → UrlParts → ℕ → PeerApi.Handle peer × Option TlsError → Run
  unfolding handshake_answer upgrade_on
  secure_on net parts results (handle, some e) = (failed (net.message_of e), [])
  secure_on net parts results (handle, none) = do
    port ← (net.connect results, connecting results ∷ [])
    shaken ← (handshake_answer net (net.handshake handle), handshaking handle ∷ [])
    upgrade_on net parts port

  -- do_ws_session_ssl
  pub ssl_connect : Net → UrlParts → Run
  unfolding secure_on
  ssl_connect net parts = do
    results ← (
      net.resolve parts.host (to_chars parts.port),
      resolving parts.host (to_chars parts.port) ∷ [],
    )
    secure_on net parts results (set_tls_peer_host peer parts.host net.fresh)

  -- do_ws_session_plain
  pub plain_connect : Net → UrlParts → Run
  unfolding upgrade_on
  plain_connect net parts = do
    results ← (
      net.resolve parts.host (to_chars parts.port),
      resolving parts.host (to_chars parts.port) ∷ [],
    )
    port ← (net.connect results, connecting results ∷ [])
    upgrade_on net parts port

  -- Impl's constructor, which throws on a URL that is refused, and do_ws_session.
  connect_to : Net → Outcome UrlParts → Run
  unfolding ssl_connect plain_connect
  connect_to net (refused e) = (failed (url_error_text (codes "ws") (codes "wss") e), [])
  connect_to net (parsed parts) =
      if parts.use_ssl then ssl_connect net parts else plain_connect net parts

  pub ws_connect : Net → Bytes → Run
  unfolding connect_to
  ws_connect net url = connect_to net (parse_websocket_url url)
