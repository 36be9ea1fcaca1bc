-- ===== src/StreamSession/Verified.antt =====
-- What has happened before a stream sends its request over TLS.
use slick_net.Prelude.{
  ℕ, ◌≡◌, refl, ap, Bool, true, false, List, [], ◌∷◌, Option, none, some, Bytes, if◌then◌else◌,
  arith,
}
use slick_net.Tls.{PeerApi, TlsError, set_tls_peer_host}
use slick_net.Tls.PeerHost.{IsBound, set_tls_peer_host-IsBound}
use slick_net.HttpRequest.Message.{FieldsApi}
use slick_net.HttpRequest.Session.{Io, done, failed}
use slick_net.StreamSession.{
  Reply, Op, resolving, connecting, handshaking, writing, Net, Target, Run, ◌>>=◌, ◌>>◌,
  throw_if_closed, handshake_answer, ssl_response, ssl_connected, stream_session,
}

-- Whether a request was sent.
module _ (peer : PeerApi) (api : FieldsApi) (net : Net peer api) (t : Target) where
  abbrev pub request_sent : List (Op peer api) → Bool
  request_sent [] = false
  request_sent (writing target fields ∷ ops) = true
  request_sent (_ ∷ ops) = request_sent ops

  abbrev Verified : PeerApi.Handle peer → Run peer api Reply → Type 0
  Verified handle run = request_sent run.1 ≡ true → net.handshake handle ≡ none

  checked-Verified :
      (handle : PeerApi.Handle peer) (n : ℕ) (rest : Run peer api Reply)
      → Verified handle rest
      → Verified handle (◌>>◌ peer api (throw_if_closed peer api net n) rest)
  unfolding throw_if_closed
  checked-Verified handle n rest v = checked (net.is_current n)
    where
      checked :
          (b : Bool)
          → Verified handle
              (◌>>◌ peer api (if b then (done tt, []) else (failed net.aborted, [])) rest)
      checked true s = v s
      checked false s = ground arith

  handshaken :
      (handle : PeerApi.Handle peer) (answer : Option (ℕ × Bytes × Bytes))
      (rest : Run peer api Reply)
      → request_sent
          (◌>>◌ peer api (handshake_answer peer api net answer, handshaking handle ∷ []) rest).1
        ≡ true
      → answer ≡ none
  unfolding handshake_answer
  handshaken handle none rest s = refl
  handshaken handle (some (v, r, x)) rest s = ground arith

  resolved-Verified :
      (handle : PeerApi.Handle peer) (answer : Io ℕ) (rest : ℕ → Run peer api Reply)
      → ((a : ℕ) → Verified handle (rest a))
      → Verified handle (◌>>=◌ peer api (answer, resolving t.host t.port ∷ []) rest)
  resolved-Verified handle (done a) rest v s = v a s
  resolved-Verified handle (failed x) rest v s = ground arith

  connected-Verified :
      (handle : PeerApi.Handle peer) (results : ℕ) (answer : Io (Unit {0}))
      (rest : Run peer api Reply)
      → Verified handle rest
      → Verified handle (◌>>◌ peer api (answer, connecting results ∷ []) rest)
  connected-Verified handle results (done a) rest v s = v s
  connected-Verified handle results (failed x) rest v s = ground arith

  ssl_response-Verified :
      (handle : PeerApi.Handle peer) → Verified handle (ssl_response peer api net t handle)
  unfolding ssl_response
  ssl_response-Verified handle = checked-Verified handle 0 _ (
      resolved-Verified handle (net.resolve t.host t.port) _ (λ results.
        checked-Verified handle 1 _ (
          connected-Verified handle results (net.connect results) _
            (checked-Verified handle 2 _ (handshaken handle (net.handshake handle) _)))))

  ssl_connected-Verified :
      (handle : PeerApi.Handle peer) (e : Option TlsError)
      → request_sent (ssl_connected peer api net t (handle, e)).1 ≡ true
      → (e ≡ none) × (net.handshake handle ≡ none)
  unfolding ssl_connected
  ssl_connected-Verified handle (some e) s = ground arith
  ssl_connected-Verified handle none s = (refl, ssl_response-Verified handle s)

  -- A stream over TLS sends its request only behind a handshake that succeeded, with a handle that demands a
  -- certificate for the stream's host.
  pub stream_session-verified :
      request_sent (stream_session peer api true net t).1 ≡ true
      → (handle : PeerApi.Handle peer) × IsBound peer t.host net.fresh handle
        × (net.handshake handle ≡ none)
  unfolding stream_session
  stream_session-verified s =
      let b = set_tls_peer_host peer t.host net.fresh in
      let p = ssl_connected-Verified b.0 b.1 s in
      (
        b.0,
        set_tls_peer_host-IsBound peer t.host net.fresh b.0
            (ap (λ (o : Option TlsError). (b.0, o)) p.0),
        p.1,
      )
