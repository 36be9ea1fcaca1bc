-- ===== src/StreamSession/Steps.antt =====
-- What has happened before each operation of a session.
use slick_net.Prelude.{
  ℕ, suc, ◌+◌, ◌≤◌, ◌≡◌, refl, ap, Bool, true, false, [], ◌∷◌, Option, none, some, Bytes, length,
  if◌then◌else◌, dec_lt, arith,
}
use slick_net.Tls.{PeerApi, TlsError}
use slick_net.HttpRequest.Message.{FieldsApi}
use slick_net.HttpRequest.Session.{Io, done, failed}
use slick_net.StreamSession.{
  Reply, Op, resolving, connecting, handshaking, writing, reading_header, Net, Target, Run, ◌>>=◌,
  ◌>>◌, throw_if_closed, handshake_answer, reply_to, send_request, plain_response, ssl_response,
  ssl_connected, stream_session,
}

abbrev pub is_failed : {A : Type 0} → Io A → Bool
is_failed (done a) = false
is_failed (failed text) = true

-- The number of the last call of throw_if_closed.
abbrev pub last_check : Bool → ℕ
last_check true = 5
last_check false = 4

module _ (peer : PeerApi) (api : FieldsApi) (net : Net peer api) (last : ℕ) where
  -- A part of a session, behind n operations, and before or behind the n-th test.
  abbrev Stops : (n m : ℕ) → Run peer api Reply → Type 0
  Stops n m run =
      (k : ℕ)
      → net.is_current k ≡ false
      → m ≤ k
      → (n + length run.1 ≤ k) × (k ≤ last → is_failed run.0 ≡ true)

  ends-Stops : (r : Reply) → Stops last (suc last) (done r, [])
  ends-Stops r k e h = (omega (arith, h), λ b. absurd (omega (arith, h, b)))

  later : (n k : ℕ) → n ≤ k → net.is_current n ≡ true → net.is_current k ≡ false → suc n ≤ k
  later n k h y e = elim (dec_lt n k) [
    | yes l ↦ omega (arith, l)
    | no g ↦
        let q : n ≡ k = omega (arith, g, h) in absurd (ground (arith, ap net.is_current q, y, e))
  ]

  check-Stops :
      (n : ℕ) (rest : Run peer api Reply)
      → Stops n (suc n) rest
      → Stops n n (◌>>◌ peer api (throw_if_closed peer api net n) rest)
  unfolding throw_if_closed
  check-Stops n rest s k e h = checked (net.is_current n) refl
    where
      checked :
          (b : Bool)
          → net.is_current n ≡ b
          → (n
                + length
                    (◌>>◌ peer api (if b then (done tt, []) else (failed net.aborted, [])) rest).1
              ≤ k)
            × (k ≤ last
                → is_failed
                    (◌>>◌ peer api (if b then (done tt, []) else (failed net.aborted, [])) rest).0
                  ≡ true)
      checked true y = s k e (later n k h y e)
      checked false y = (omega (arith, h), λ b. refl)

  op-Stops :
      {A : Type 0} (n : ℕ) (answer : Io A) (op : Op peer api) (rest : A → Run peer api Reply)
      → ((a : A) → Stops (suc n) (suc n) (rest a))
      → Stops n (suc n) (◌>>=◌ peer api (answer, op ∷ []) rest)
  op-Stops n (done a) op rest s k e h = let p = s a k e h in (omega (arith, p.0), p.1)
  op-Stops n (failed text) op rest s k e h = (omega (arith, h), λ b. refl)

  handshake-Stops :
      (n : ℕ) (answer : Option (ℕ × Bytes × Bytes)) (handle : PeerApi.Handle peer)
      (rest : Run peer api Reply)
      → Stops (suc n) (suc n) rest
      → Stops n
          (suc n)
          (◌>>◌ peer api (handshake_answer peer api net answer, handshaking handle ∷ []) rest)
  handshake-Stops n answer handle rest s =
      op-Stops n (handshake_answer peer api net answer) (handshaking handle) (λ u. rest) (λ u. s)

module _ (peer : PeerApi) (api : FieldsApi) (net : Net peer api) (t : Target) where
  -- The number of operations before the request is n.
  send_request-Stops :
      (n : ℕ)
      → Stops peer api net
          (suc (suc n))
          n
          (suc n)
          (send_request peer api net t (suc n) (suc (suc n)))
  unfolding send_request
  send_request-Stops n =
      let last = suc (suc n) in
      op-Stops peer api net last n (net.write t.target _) (writing t.target _) _ (λ w.
        check-Stops peer api net last (suc n) _ (
          op-Stops peer api net last (suc n) net.read_header reading_header _ (λ h.
            check-Stops peer api net last last _
              (ends-Stops peer api net last (reply_to peer api net h)))))

  plain_response-Stops : Stops peer api net 4 0 0 (plain_response peer api net t)
  unfolding plain_response
  plain_response-Stops = check-Stops peer api net 4 0 _ (
      op-Stops peer api net 4 0 (net.resolve t.host t.port) (resolving t.host t.port) _ (λ results.
        check-Stops peer api net 4 1 _ (
          op-Stops peer api net 4 1 (net.connect results) (connecting results) _
            (λ c. check-Stops peer api net 4 2 _ (send_request-Stops 2)))))

  ssl_response-Stops :
      (handle : PeerApi.Handle peer) → Stops peer api net 5 0 0 (ssl_response peer api net t handle)
  unfolding ssl_response
  ssl_response-Stops handle = check-Stops peer api net 5 0 _ (
      op-Stops peer api net 5 0 (net.resolve t.host t.port) (resolving t.host t.port) _ (λ results.
        check-Stops peer api net 5 1 _ (
          op-Stops peer api net 5 1 (net.connect results) (connecting results) _ (λ c.
            check-Stops peer api net 5 2 _ (
              handshake-Stops peer api net 5 2 (net.handshake handle) handle _
                (check-Stops peer api net 5 3 _ (send_request-Stops 3)))))))

  ssl_connected-Stops :
      (handle : PeerApi.Handle peer) (e : Option TlsError)
      → Stops peer api net 5 0 0 (ssl_connected peer api net t (handle, e))
  unfolding ssl_connected
  ssl_connected-Stops handle (some e) k c h = (omega (arith, h), λ b. refl)
  ssl_connected-Stops handle none k c h = ssl_response-Stops handle k c h

  -- The test for an open generation comes before every operation of a session. If the k-th test finds that
  -- close() has ended the generation, the session makes at most k operations; and if k is one of its tests (the
  -- last is the 5th with TLS and the 4th without, counted from 0), then it ends in an exception, before
  -- onConnected and before the text of a rejection is reported.
  pub closed_stops :
      (ssl : Bool) (k : ℕ)
      → net.is_current k ≡ false
      → (length (stream_session peer api ssl net t).1 ≤ k)
        × (k ≤ last_check ssl → is_failed (stream_session peer api ssl net t).0 ≡ true)
  unfolding stream_session
  closed_stops true k e =
      let p = ssl_connected-Stops _ _ k e (omega arith) in (omega (arith, p.0), p.1)
  closed_stops false k e =
      let p = plain_response-Stops k e (omega arith) in (omega (arith, p.0), p.1)
