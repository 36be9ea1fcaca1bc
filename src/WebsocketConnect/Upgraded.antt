-- ===== src/WebsocketConnect/Upgraded.antt =====
-- What has happened before the handshake of a WebSocket.
use slick_net.Prelude.{
  ℕ, ◌≡◌, refl, subst, true, List, [], ◌∷◌, Option, none, some, Bytes, if◌then◌else◌, arith,
}
use slick_net.Url.{Outcome, parsed, UrlParts, parse_websocket_url, format_authority}
use slick_net.Url.Port.{to_chars}
use slick_net.Tls.{PeerApi, TlsError, set_tls_peer_host}
use slick_net.Tls.PeerHost.{IsBound, set_tls_peer_host-IsBound}
use slick_net.HttpRequest.Session.{Io, done, failed}
use slick_net.WebsocketConnect.{
  Op, resolving, connecting, handshaking, upgrading, Net, ◌>>=◌, handshake_answer, upgrade_on,
  secure_on, ssl_connect, plain_connect, connect_to, ws_connect,
}

module _ (peer : PeerApi) (net : Net peer) (parts : UrlParts) where
  -- The Host headers of the handshakes that were begun.
  abbrev pub upgrades : List (Op peer) → List Bytes
  upgrades [] = []
  upgrades (upgrading host_header path ∷ ops) = host_header ∷ upgrades ops
  upgrades (_ ∷ ops) = upgrades ops

  -- The handshake of TLS with this handle has succeeded, and the Host header names the port of the endpoint.
  pub record IsSecured (host_header : Bytes) : Type 0 where
    pub results : ℕ
    pub port : ℕ
    pub handle : PeerApi.Handle peer
    pub connected : net.connect results ≡ done port
    pub bound : IsBound peer parts.host net.fresh handle
    pub shaken : net.handshake handle ≡ none
    pub header : host_header ≡ format_authority parts.host port

  head-of : (a b : Bytes) → a ∷ [] ≡ b ∷ [] → b ≡ a
  head-of a b e = cc

  shaken-IsSecured :
      (results port : ℕ) (handle : PeerApi.Handle peer) (answer : Option (ℕ × Bytes × Bytes))
      (h : Bytes)
      → net.connect results ≡ done port
      → IsBound peer parts.host net.fresh handle
      → net.handshake handle ≡ answer
      → upgrades
          (◌>>=◌ peer
            (handshake_answer peer net answer, handshaking handle ∷ [])
            (λ s. upgrade_on peer net parts port)).1
        ≡ h ∷ []
      → IsSecured h
  unfolding handshake_answer upgrade_on
  shaken-IsSecured results port handle none h c b s e = record {
    results = results;
    port = port;
    handle = handle;
    connected = c;
    bound = b;
    shaken = s;
    header = head-of (format_authority parts.host port) h e;
  }
  shaken-IsSecured results port handle (some (v, r, x)) h c b s e = absurd (ground (arith, e))

  connected-IsSecured :
      (results : ℕ) (handle : PeerApi.Handle peer) (answer : Io ℕ) (h : Bytes)
      → net.connect results ≡ answer
      → IsBound peer parts.host net.fresh handle
      → upgrades
          (◌>>=◌ peer
            (answer, connecting results ∷ [])
            (λ port.
              ◌>>=◌ peer
                (handshake_answer peer net (net.handshake handle), handshaking handle ∷ [])
                (λ s. upgrade_on peer net parts port))).1
        ≡ h ∷ []
      → IsSecured h
  connected-IsSecured results handle (done port) h c b e =
      shaken-IsSecured results port handle (net.handshake handle) h c b refl e
  connected-IsSecured results handle (failed x) h c b e = absurd (ground (arith, e))

  secure_on-IsSecured :
      (results : ℕ) (handle : PeerApi.Handle peer) (error : Option TlsError) (h : Bytes)
      → set_tls_peer_host peer parts.host net.fresh ≡ (handle, error)
      → upgrades (secure_on peer net parts results (handle, error)).1 ≡ h ∷ []
      → IsSecured h
  unfolding secure_on
  secure_on-IsSecured results handle (some x) h p e = absurd (ground (arith, e))
  secure_on-IsSecured results handle none h p e =
      connected-IsSecured results handle (net.connect results) h refl
        (set_tls_peer_host-IsBound peer parts.host net.fresh handle p) e

  ssl_connect-IsSecured :
      (h : Bytes) → upgrades (ssl_connect peer net parts).1 ≡ h ∷ [] → IsSecured h
  unfolding ssl_connect
  ssl_connect-IsSecured h e = resolved (net.resolve parts.host (to_chars parts.port)) e
    where
      resolved :
          (answer : Io ℕ)
          → upgrades
              (◌>>=◌ peer
                (answer, resolving parts.host (to_chars parts.port) ∷ [])
                (λ results.
                  secure_on peer net parts results (set_tls_peer_host peer parts.host net.fresh))).1
            ≡ h ∷ []
          → IsSecured h
      resolved (done results) e =
          secure_on-IsSecured results (set_tls_peer_host peer parts.host net.fresh).0
            (set_tls_peer_host peer parts.host net.fresh).1 h refl e
      resolved (failed x) e = absurd (ground (arith, e))

  parsed-IsSecured :
      (h : Bytes)
      → parts.use_ssl ≡ true
      → upgrades (connect_to peer net (parsed parts)).1 ≡ h ∷ []
      → IsSecured h
  unfolding connect_to
  parsed-IsSecured h t e = ssl_connect-IsSecured h (
      subst
        (λ b.
          upgrades (if b then ssl_connect peer net parts else plain_connect peer net parts).1
          ≡ h ∷ [])
        t e)

  -- A session to a wss URL begins the handshake of the WebSocket only behind a TLS handshake that succeeded,
  -- with a handle that demands a certificate for the URL's host; and the Host header of that handshake is the
  -- host with the port that was connected to.
  pub ws_connect-IsSecured :
      (text h : Bytes)
      → parse_websocket_url text ≡ parsed parts
      → parts.use_ssl ≡ true
      → upgrades (ws_connect peer net text).1 ≡ h ∷ []
      → IsSecured h
  unfolding ws_connect
  ws_connect-IsSecured text h p t e =
      parsed-IsSecured h t
        (subst (λ (o : Outcome UrlParts). upgrades (connect_to peer net o).1 ≡ h ∷ []) p e)
