-- ===== src/HttpRequest/Session/Verified.antt =====
-- What has happened before a request is sent over TLS, and before a response is returned.
use slick_net.Prelude.{
  ℕ, ◌≡◌, refl, Bool, true, false, List, [], ◌∷◌, ◌++◌, Option, none, some, Bytes, codes,
  if◌then◌else◌, ◌⊎◌, arith, ap, ◌∙◌, subst,
}
use slick_net.Tls.{PeerApi, TlsError, set_tls_peer_host}
use slick_net.Tls.PeerHost.{IsBound, set_tls_peer_host-IsBound}
use slick_net.Url.{UrlError, Outcome as UrlOutcome, parsed, refused, Parsed, parse_url}
use slick_net.HttpRequest.{Response, Verb, Call, url_error_text}
use slick_net.HttpRequest.Message.{FieldsApi, Headers, Message, make_request}
use slick_net.HttpRequest.Session.{
  Io, done, failed, Received, make_response, Op, resolving, connecting, handshaking, writing, Net,
  ◌>>=◌, ◌>>◌, asked, handshake_answer, exchange, plain_session, ssl_connected, ssl_session,
  session_for, do_session,
}

module _ (peer : PeerApi) (api : FieldsApi) where
  -- Whether a request was sent.
  abbrev pub has_sent : List (Op peer api) → Bool
  has_sent [] = false
  has_sent (writing req ∷ ops) = true
  has_sent (_ ∷ ops) = has_sent ops

  module _ (net : Net peer api) (req : Message api) where
    handshaken :
        (handle : PeerApi.Handle peer) (o : Option (ℕ × Bytes × Bytes))
        → has_sent
            (◌>>◌ peer api
              (asked peer api (handshaking handle) (handshake_answer peer api net o))
              (exchange peer api net req)).1
          ≡ true
        → o ≡ none
    unfolding handshake_answer
    handshaken handle none s = refl
    handshaken handle (some (v, r, t)) s = ground arith

    connected :
        (handle : PeerApi.Handle peer) (results : ℕ) (answer : Io (Unit {0}))
        → has_sent
            (◌>>◌ peer api (asked peer api (connecting results) answer) (
              ◌>>◌ peer api
                (asked peer api
                  (handshaking handle)
                  (handshake_answer peer api net (net.handshake handle)))
                (exchange peer api net req))).1
          ≡ true
        → net.handshake handle ≡ none
    connected handle results (done t) s = handshaken handle (net.handshake handle) s
    connected handle results (failed text) s = ground arith

    ssl_connected-handshake :
        (host port : Bytes) (handle : PeerApi.Handle peer) (error : Option TlsError)
        → has_sent (ssl_connected peer api net host port req (handle, error)).1 ≡ true
        → (error ≡ none) × (net.handshake handle ≡ none)
    unfolding ssl_connected
    ssl_connected-handshake host port handle (some e) s = ground arith
    ssl_connected-handshake host port handle none s = (refl, resolved (net.resolve host port) s)
      where
        resolved :
            (answer : Io ℕ)
            → has_sent
                (◌>>=◌ peer api (asked peer api (resolving host port) answer) (λ results.
                  ◌>>◌ peer api (asked peer api (connecting results) (net.connect results)) (
                    ◌>>◌ peer api
                      (asked peer api
                        (handshaking handle)
                        (handshake_answer peer api net (net.handshake handle)))
                      (exchange peer api net req)))).1
              ≡ true
            → net.handshake handle ≡ none
        resolved (done results) s = connected handle results (net.connect results) s
        resolved (failed text) s = ground arith

  -- A request is sent over TLS only behind a handshake that succeeded, with a handle that was bound to the host.
  ssl_session-verified :
      (net : Net peer api) (host target port host_header : Bytes) (method : Verb)
      (headers : Headers) (body : Bytes) (version : ℕ)
      → has_sent
          (ssl_session peer api net host target port host_header method headers body version).1
        ≡ true
      → (handle : PeerApi.Handle peer) × IsBound peer host net.fresh handle
        × (net.handshake handle ≡ none)
  unfolding ssl_session
  ssl_session-verified net host target port host_header method headers body version s =
      let req = make_request api host_header target method headers body version in
      let b = set_tls_peer_host peer host net.fresh in
      let p = ssl_connected-handshake net req host port b.0 b.1 s in
      (
        b.0,
        set_tls_peer_host-IsBound peer host net.fresh b.0
            (ap (λ (o : Option TlsError). (b.0, o)) p.0),
        p.1,
      )

  parsed-verified :
      (net : Net peer api) (call : Call) (headers : Headers) (url : Parsed)
      → url.use_ssl ≡ true
      → has_sent (session_for peer api net call headers (parsed url)).1 ≡ true
      → (handle : PeerApi.Handle peer) × IsBound peer url.host net.fresh handle
        × (net.handshake handle ≡ none)
  unfolding session_for
  parsed-verified net call headers url t s =
      ssl_session-verified net url.host url.target url.port url.host_header call.verb headers
        call.body call.version
        (subst
          (λ b.
            has_sent
              (if b
                then ssl_session peer api net url.host url.target url.port url.host_header call.verb
                    headers call.body call.version
                else plain_session peer api net url.host url.target url.port url.host_header
                    call.verb headers call.body call.version).1
            ≡ true)
          t s)

  session_for-verified :
      (net : Net peer api) (call : Call) (headers : Headers) (o : UrlOutcome Parsed) (url : Parsed)
      → o ≡ parsed url
      → url.use_ssl ≡ true
      → has_sent (session_for peer api net call headers o).1 ≡ true
      → (handle : PeerApi.Handle peer) × IsBound peer url.host net.fresh handle
        × (net.handshake handle ≡ none)
  session_for-verified net call headers (refused e) url p t s = cc
  session_for-verified net call headers (parsed got) url p t s =
      let q : got ≡ url = cc in
      subst
        (λ (u : Parsed).
          (handle : PeerApi.Handle peer) × IsBound peer u.host net.fresh handle
          × (net.handshake handle ≡ none))
        q (parsed-verified net call headers got (ap (λ (u : Parsed). u.use_ssl) q ∙ t) s)

  -- Where a request to a URL that asks for TLS is sent, the handshake has succeeded before, with a handle that
  -- demands a certificate for the URL's host.
  pub do_session-verified :
      (net : Net peer api) (text : Bytes) (call : Call) (headers : Headers) (url : Parsed)
      → parse_url text ≡ parsed url
      → url.use_ssl ≡ true
      → has_sent (do_session peer api net text call headers).1 ≡ true
      → (handle : PeerApi.Handle peer) × IsBound peer url.host net.fresh handle
        × (net.handshake handle ≡ none)
  unfolding do_session
  do_session-verified net text call headers url p t s =
      session_for-verified net call headers (parse_url text) url p t s

-- How a call for the URL `text` may end.
module _ (peer : PeerApi) (api : FieldsApi) (net : Net peer api) (text : Bytes) where
  -- An exception: the URL is refused, or an operation fails.
  pub data Cause : Bytes → Type 0 where
    of_url :
        {e : UrlError}
        → parse_url text ≡ refused e
        → Cause (url_error_text (codes "http") (codes "https") e)
    of_resolve : {t : Bytes} (host port : Bytes) → net.resolve host port ≡ failed t → Cause t
    of_connect : {t : Bytes} (results : ℕ) → net.connect results ≡ failed t → Cause t
    of_handshake :
        {t : Bytes} (handle : PeerApi.Handle peer)
        → handshake_answer peer api net (net.handshake handle) ≡ failed t
        → Cause t
    of_write : {t : Bytes} (req : Message api) → net.write req ≡ failed t → Cause t
    of_read : {t : Bytes} → net.read ≡ failed t → Cause t

  -- The response for a TLS handle that could not be set up for the URL's host.
  pub record Unbound (r : Response) : Type 0 where
    pub url : Parsed
    pub accepted : parse_url text ≡ parsed url
    pub over_tls : url.use_ssl ≡ true
    pub error : TlsError
    pub unset : (set_tls_peer_host peer url.host net.fresh).1 ≡ some error
    pub code : r.result_code ≡ 5000
    pub reason : r.reason ≡ codes "Error setting TLS peer host: " ++ net.message_of error

  abbrev pub IsFrom : Io Response → Type 0
  IsFrom (failed t) = Cause t
  IsFrom (done r) = Unbound r ⊎ ((res : Received) × (net.read ≡ done res) × (r ≡ make_response res))

  abbrev unbound_response : TlsError → Response
  unbound_response e = record {
    result_code = 5000;
    reason = codes "Error setting TLS peer host: " ++ net.message_of e;
    result_text = [];
  }
