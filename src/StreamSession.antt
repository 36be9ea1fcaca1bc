-- ===== src/StreamSession.antt =====
-- src/http_stream.cpp: do_stream_session_ssl, do_stream_session_plain and stream_response: what a session does on
-- the network, in order, and how it ends. The read loop of stream_response is in HttpStream, and one operation here.
pub mod Request
pub mod Steps
pub mod Verified
pub mod Shut
pub mod Constructed
mod Tests
use slick_net.Prelude.{
  ℕ, ◌≡◌, Bool, true, false, List, [], ◌∷◌, ◌++◌, Option, none, some, Bytes, codes, ◌==◌,
  if◌then◌else◌,
}
use slick_net.Tls.{PeerApi, TlsError, set_tls_peer_host, handshake_error}
use slick_net.HttpRequest.Message.{FieldsApi, Headers, set_headers, host_name, user_agent}
use slick_net.HttpRequest.Session.{Io, done, failed}

-- The header of a response; whether its Content-Type has "text/event-stream" in it.
pub record Header : Type 0 where
  pub status : ℕ
  pub reason : Bytes
  pub is_sse : Bool

-- How stream_response ends, or goes on: the server rejected the request, and onError has this text; close()
-- ended the generation before it was CONNECTED; or the read loop begins, behind onConnected.
pub data Reply : Type 0 where
  rejected : Bytes → Reply
  gone : Reply
  streaming : Bool → Reply

abbrev pub accept : Bytes
accept = codes "Accept"

abbrev pub cache_control : Bytes
cache_control = codes "Cache-Control"

module _ (api : FieldsApi) where
  open api use {Fields, no_fields, set, version_string}

  -- The fields of the GET request.
  pub stream_request : Bytes → Headers → Fields
  stream_request host_header headers = set_headers api headers (
      set cache_control (codes "no-cache") (
        set accept (codes "text/event-stream")
          (set user_agent version_string (set host_name host_header no_fields))))

-- HttpStream's members that a session reads.
pub record Target : Type 0 where
  pub host : Bytes
  pub port : Bytes
  pub target : Bytes
  pub host_header : Bytes
  pub headers : Headers

module _ (peer : PeerApi) (api : FieldsApi) where
  pub data Op : Type 0 where
    resolving : Bytes → Bytes → Op
    connecting : ℕ → Op
    handshaking : PeerApi.Handle peer → Op
    writing : Bytes → FieldsApi.Fields api → Op  -- the target and the fields
    reading_header : Op
    reading_body : Bool → Op  -- the read loop, which is HttpStream's
    shutting_tls : PeerApi.Handle peer → Op
    shutting_socket : Op

  -- What the network and OpenSSL answer, and what is_current returns each time that it is called.
  pub record Net : Type 0 where
    pub resolve : Bytes → Bytes → Io ℕ
    pub connect : ℕ → Io (Unit {0})
    pub handshake : PeerApi.Handle peer → Option (ℕ × Bytes × Bytes)
    pub write : Bytes → FieldsApi.Fields api → Io (Unit {0})
    pub read_header : Io Header
    pub read_body : Bool → Io (Unit {0})  -- an exception of onData ends the read loop
    pub is_current : ℕ → Bool
    pub upgrades : Bool  -- the exchange of CONNECTING for CONNECTED succeeds
    pub aborted : Bytes  -- what() of operation_aborted
    pub text_of : Bytes → Bytes → Bytes
    pub message_of : TlsError → Bytes
    pub fresh : PeerApi.Handle peer

  -- How a session ends, and the operations that it made.
  abbrev pub Run : Type 0 → Type 0
  Run A = Io A × List Op

  infixl 4 ◌>>=◌ ◌>>◌
  abbrev ◌>>=◌ : {A B : Type 0} → Run A → (A → Run B) → Run B
  (done a, ops) >>= rest = let (r, more) = rest a in (r, ops ++ more)
  (failed text, ops) >>= rest = (failed text, ops)

  abbrev ◌>>◌ : {B : Type 0} → Run (Unit {0}) → Run B → Run B
  part >> rest = part >>= λ _. rest

  -- throw_if_closed, which is called the k-th time.
  throw_if_closed : Net → ℕ → Run (Unit {0})
  throw_if_closed net k = if net.is_current k then (done tt, []) else (failed net.aborted, [])

  handshake_answer : Net → Option (ℕ × Bytes × Bytes) → Io (Unit {0})
  handshake_answer net none = done tt
  handshake_answer net (some (verify_result, reason, text)) =
      failed (net.text_of (handshake_error verify_result reason) text)

  -- Behind the read of the header.
  reply_to : Net → Header → Reply
  reply_to net h =
      if h.status == 200
      then if net.upgrades then streaming h.is_sse else gone
      else rejected (codes "HTTP error: " ++ h.reason)

  -- From the request on, with k calls of throw_if_closed so far.
  send_request : Net → Target → ℕ → ℕ → Run Reply
  unfolding throw_if_closed reply_to stream_request
  send_request net t k m = do
    (
      net.write t.target (stream_request api t.host_header t.headers),
      writing t.target (stream_request api t.host_header t.headers) ∷ [],
    )
    throw_if_closed net k
    h ← (net.read_header, reading_header ∷ [])
    throw_if_closed net m
    (done (reply_to net h), [])

  -- stream_response<beast::tcp_stream>
  pub plain_response : Net → Target → Run Reply
  unfolding throw_if_closed send_request
  plain_response net t = do
    throw_if_closed net 0
    results ← (net.resolve t.host t.port, resolving t.host t.port ∷ [])
    throw_if_closed net 1
    (net.connect results, connecting results ∷ [])
    throw_if_closed net 2
    send_request net t 3 4

  -- stream_response<ssl::stream<beast::tcp_stream>>
  pub ssl_response : Net → Target → PeerApi.Handle peer → Run Reply
  unfolding throw_if_closed send_request handshake_answer
  ssl_response net t handle = do
    throw_if_closed net 0
    results ← (net.resolve t.host t.port, resolving t.host t.port ∷ [])
    throw_if_closed net 1
    (net.connect results, connecting results ∷ [])
    throw_if_closed net 2
    (handshake_answer net (net.handshake handle), handshaking handle ∷ [])
    throw_if_closed net 3
    send_request net t 4 5

  -- Behind set_tls_peer_host.
  ssl_connected : Net → Target → PeerApi.Handle peer × Option TlsError → Run Reply
  unfolding ssl_response
  ssl_connected net t (handle, some e) =
      (failed (codes "Error setting TLS peer host: " ++ net.message_of e), [])
  ssl_connected net t (handle, none) = ssl_response net t handle

  -- do_stream_session_ssl and do_stream_session_plain, before the shutdown of the connection.
  pub stream_session : Bool → Net → Target → Run Reply
  unfolding ssl_connected plain_response
  stream_session true net t = ssl_connected net t (set_tls_peer_host peer t.host net.fresh)
  stream_session false net t = plain_response net t

  -- The rest of stream_response: whether the connection is to be shut down.
  serve_body : Net → Reply → Run Bool
  serve_body net (rejected text) = (done false, [])
  serve_body net gone = (done true, [])
  serve_body net (streaming is_sse) = do
    (net.read_body is_sse, reading_body is_sse ∷ [])
    (done true, [])

  -- The shutdown of the connection, whose error is only logged.
  shut_down : Op → Bool → Run (Unit {0})
  shut_down op true = (done tt, op ∷ [])
  shut_down op false = (done tt, [])

  abbrev pub closing_op : Bool → Net → Target → Op
  closing_op true net t = shutting_tls (set_tls_peer_host peer t.host net.fresh).0
  closing_op false net t = shutting_socket

  -- do_stream_session_ssl and do_stream_session_plain.
  pub whole_session : Bool → Net → Target → Run (Unit {0})
  unfolding stream_session serve_body shut_down
  whole_session ssl net t = do
    reply ← stream_session ssl net t
    ending ← serve_body net reply
    shut_down (closing_op ssl net t) ending
