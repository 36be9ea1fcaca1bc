-- ===== src/HttpRequest/Session.antt =====
-- do_session_plain_awaitable, do_session_ssl_awaitable and do_session_awaitable: what a request does on the network,
-- in order, and how it ends.
pub mod Verified
mod Tests
use slick_net.Prelude.{
  ℕ, ◌≡◌, Bool, true, false, List, [], ◌∷◌, ◌++◌, ◌%◌, ◌^◌, Option, none, some, Bytes, codes,
  if◌then◌else◌,
}
use slick_net.Tls.{PeerApi, TlsError, set_tls_peer_host, handshake_error}
use slick_net.Url.{Outcome as UrlOutcome, parsed, refused, Parsed, parse_url}
use slick_net.HttpRequest.{Response, Outcome, responded, threw, Verb, Call, url_error_text}
use slick_net.HttpRequest.Message.{FieldsApi, Headers, Message, make_request}

-- The answer to an operation: a value, or an exception with its text.
pub data Io {ℓ} (A : Type ℓ) : Type ℓ where
  done : A → Io A
  failed : Bytes → Io A

-- A message that was received, with its status as the server sent it.
pub record Received : Type 0 where
  pub result_int : ℕ
  pub reason : Bytes
  pub body : Bytes

-- make_response.
pub make_response : Received → Response
make_response res = record {
  result_code = res.result_int % 2 ^ 32;
  reason = res.reason;
  result_text = res.body;
}

module _ (peer : PeerApi) (api : FieldsApi) where
  -- What a session asks of the network.
  pub data Op : Type 0 where
    resolving : Bytes → Bytes → Op
    connecting : ℕ → Op
    handshaking : PeerApi.Handle peer → Op
    writing : Message api → Op
    reading closing : Op

  -- What the network, and OpenSSL for a handshake, answer. A handshake that fails answers with the result of the
  -- verification, its text and the error's own text.
  pub record Net : Type 0 where
    pub resolve : Bytes → Bytes → Io ℕ
    pub connect : ℕ → Io (Unit {0})
    pub handshake : PeerApi.Handle peer → Option (ℕ × Bytes × Bytes)
    pub write : Message api → Io (Unit {0})
    pub read : Io Received
    pub text_of : Bytes → Bytes → Bytes  -- what() of a system_error, by its two texts
    pub message_of : TlsError → Bytes
    pub fresh : PeerApi.Handle peer  -- of a new ssl::stream

  -- How a part of a session ends, and the operations it made.
  abbrev pub Run : Type 0 → Type 0
  Run A = Io A × List Op

  infixl 4 ◌>>=◌ ◌>>◌
  abbrev pub ◌>>=◌ : {A B : Type 0} → Run A → (A → Run B) → Run B
  (done a, ops) >>= rest = let (r, more) = rest a in (r, ops ++ more)
  (failed text, ops) >>= rest = (failed text, ops)

  abbrev pub ◌>>◌ : {B : Type 0} → Run (Unit {0}) → Run B → Run B
  part >> rest = part >>= λ _. rest

  abbrev asked : {A : Type 0} → Op → Io A → Run A
  asked op answer = (answer, op ∷ [])

  abbrev answered : {A : Type 0} → A → Run A
  answered a = (done a, [])

  -- The answer to a handshake, or throw_tls_handshake_error.
  pub handshake_answer : Net → Option (ℕ × Bytes × Bytes) → Io (Unit {0})
  handshake_answer net none = done tt
  handshake_answer net (some (verify_result, reason, text)) =
      failed (net.text_of (handshake_error verify_result reason) text)

  -- The request is sent and its response is read. A failure to close the connection is only logged.
  exchange : Net → Message api → Run Response
  exchange net req = do
    asked (writing req) (net.write req)
    res ← asked reading net.read
    asked closing (done tt)
    answered (make_response res)

  pub plain_session :
      Net → Bytes → Bytes → Bytes → Bytes → Verb → Headers → Bytes → ℕ → Run Response
  unfolding exchange
  plain_session net host target port host_header method headers body version = do
    results ← asked (resolving host port) (net.resolve host port)
    asked (connecting results) (net.connect results)
    exchange net (make_request api host_header target method headers body version)

  -- Behind set_tls_peer_host, which has returned the handle and an error or none.
  ssl_connected :
      Net → Bytes → Bytes → Message api → PeerApi.Handle peer × Option TlsError → Run Response
  unfolding exchange handshake_answer
  ssl_connected net host port req (handle, some e) = answered (record {
    result_code = 5000;
    reason = codes "Error setting TLS peer host: " ++ net.message_of e;
    result_text = [];
  })
  ssl_connected net host port req (handle, none) = do
    results ← asked (resolving host port) (net.resolve host port)
    asked (connecting results) (net.connect results)
    asked (handshaking handle) (handshake_answer net (net.handshake handle))
    exchange net req

  pub ssl_session : Net → Bytes → Bytes → Bytes → Bytes → Verb → Headers → Bytes → ℕ → Run Response
  unfolding ssl_connected
  ssl_session net host target port host_header method headers body version =
      ssl_connected net host port (make_request api host_header target method headers body version)
        (set_tls_peer_host peer host net.fresh)

  -- Behind parse_url.
  session_for : Net → Call → Headers → UrlOutcome Parsed → Run Response
  unfolding plain_session ssl_session
  session_for net call headers (refused e) =
      (failed (url_error_text (codes "http") (codes "https") e), [])
  session_for net call headers (parsed url) =
      if url.use_ssl
      then ssl_session net url.host url.target url.port url.host_header call.verb headers call.body
          call.version
      else plain_session net url.host url.target url.port url.host_header call.verb headers
          call.body call.version

  -- do_session_awaitable.
  pub do_session : Net → Bytes → Call → Headers → Run Response
  unfolding session_for
  do_session net url call headers = session_for net call headers (parse_url url)

-- How the coroutine ends for the handler that it was spawned with.
pub ended : Io Response → Outcome
ended (done response) = responded response
ended (failed text) = threw text
