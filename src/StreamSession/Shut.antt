-- ===== src/StreamSession/Shut.antt =====
-- When the connection of a stream is shut down.
use slick_net.Prelude.{
  ℕ, ◌≡◌, ◌↔◌, refl, ◌∙◌, Bool, true, false, ◌||◌, List, [], ◌∷◌, ◌++◌, Option, none, some,
  Bool-cases, inl, inr, arith,
}
use slick_net.Tls.{PeerApi, TlsError}
use slick_net.HttpRequest.Message.{FieldsApi}
use slick_net.HttpRequest.Session.{Io, done, failed}
use slick_net.StreamSession.{
  Reply, rejected, gone, streaming, Op, resolving, connecting, handshaking, writing, reading_header,
  reading_body, shutting_tls, shutting_socket, Net, Target, Run, ◌>>=◌, ◌>>◌, throw_if_closed,
  handshake_answer, send_request, plain_response, ssl_response, ssl_connected, stream_session,
  serve_body, shut_down, closing_op, whole_session,
}

abbrev pub is_rejected : Io Reply → Bool
is_rejected (done (rejected text)) = true
is_rejected _ = false

module _ (peer : PeerApi) (api : FieldsApi) where
  abbrev pub has_shut : List (Op peer api) → Bool
  has_shut [] = false
  has_shut (shutting_tls handle ∷ ops) = true
  has_shut (shutting_socket ∷ ops) = true
  has_shut (_ ∷ ops) = has_shut ops

  has_shut-append : (a b : List (Op peer api)) → has_shut (a ++ b) ≡ (has_shut a || has_shut b)
  has_shut-append [] b = refl
  has_shut-append (shutting_tls handle ∷ a) b = refl
  has_shut-append (shutting_socket ∷ a) b = refl
  has_shut-append (resolving h p ∷ a) b = has_shut-append a b
  has_shut-append (connecting n ∷ a) b = has_shut-append a b
  has_shut-append (handshaking k ∷ a) b = has_shut-append a b
  has_shut-append (writing t f ∷ a) b = has_shut-append a b
  has_shut-append (reading_header ∷ a) b = has_shut-append a b
  has_shut-append (reading_body s ∷ a) b = has_shut-append a b

  -- A part of a session that does not shut the connection down.
  record Unshut {A : Type 0} (run : Run peer api A) : Type 0 where
    quiet : has_shut run.1 ≡ false

  module _ (net : Net peer api) where
    -- Behind an operation, or a test, and the parts that follow it.
    behind :
        {A B : Type 0} (answer : Io A) (op : Op peer api) (rest : A → Run peer api B)
        → has_shut (op ∷ []) ≡ false
        → ((a : A) → Unshut (rest a))
        → Unshut (◌>>=◌ peer api (answer, op ∷ []) rest)
    behind (done a) op rest u v = record {
      quiet = has_shut-append (op ∷ []) (rest a).1 ∙ ground (arith, u, (v a).quiet);
    }
    behind (failed text) op rest u v = record { quiet = u }

    checked :
        (n : ℕ) (rest : Run peer api Reply)
        → Unshut rest
        → Unshut (◌>>◌ peer api (throw_if_closed peer api net n) rest)
    unfolding throw_if_closed
    checked n rest v = elim (Bool-cases (net.is_current n)) [
      | inl e ↦ rw e (record { quiet = v.quiet })
      | inr e ↦ rw e (record { quiet = refl })
    ]

  module _ (net : Net peer api) (t : Target) where
    send_request-Unshut : (k m : ℕ) → Unshut (send_request peer api net t k m)
    unfolding send_request
    send_request-Unshut k m = behind net (net.write t.target _) (writing t.target _) _ refl (λ w.
        checked net k _ (
          behind net net.read_header reading_header _ refl
            (λ h. checked net m _ (record { quiet = refl }))))

    plain_response-Unshut : Unshut (plain_response peer api net t)
    unfolding plain_response
    plain_response-Unshut = checked net 0 _ (
        behind net (net.resolve t.host t.port) (resolving t.host t.port) _ refl (λ results.
          checked net 1 _ (
            behind net (net.connect results) (connecting results) _ refl
              (λ c. checked net 2 _ (send_request-Unshut 3 4)))))

    ssl_response-Unshut :
        (handle : PeerApi.Handle peer) → Unshut (ssl_response peer api net t handle)
    unfolding ssl_response
    ssl_response-Unshut handle = checked net 0 _ (
        behind net (net.resolve t.host t.port) (resolving t.host t.port) _ refl (λ results.
          checked net 1 _ (
            behind net (net.connect results) (connecting results) _ refl (λ c. checked net 2 _ (
              behind net (handshake_answer peer api net (net.handshake handle)) (handshaking handle)
                _ refl (λ e. checked net 3 _ (send_request-Unshut 4 5)))))))

    ssl_connected-Unshut :
        (handle : PeerApi.Handle peer) (e : Option TlsError)
        → Unshut (ssl_connected peer api net t (handle, e))
    unfolding ssl_connected
    ssl_connected-Unshut handle (some e) = record { quiet = refl }
    ssl_connected-Unshut handle none = ssl_response-Unshut handle

    stream_session-Unshut : (ssl : Bool) → Unshut (stream_session peer api ssl net t)
    unfolding stream_session
    stream_session-Unshut true = ssl_connected-Unshut _ _
    stream_session-Unshut false = plain_response-Unshut

    is_shut-closing_op : (ssl : Bool) → has_shut (closing_op peer api ssl net t ∷ []) ≡ true
    is_shut-closing_op true = refl
    is_shut-closing_op false = refl

    -- A session that ends without an exception, and was not rejected.
    pub record IsServed (answer : Io Reply) (run : Run peer api (Unit {0})) : Type 0 where
      pub returned : run.0 ≡ done tt
      pub accepted : is_rejected answer ≡ false

    -- What follows the response.
    abbrev finished : Bool → Run peer api Reply → Run peer api (Unit {0})
    finished ssl run = ◌>>=◌ peer api run (λ reply.
        ◌>>=◌ peer api (serve_body peer api net reply)
          (shut_down peer api (closing_op peer api ssl net t)))

    body-shut :
        (ssl : Bool) (is_sse : Bool) (answer : Io (Unit {0})) (ops : List (Op peer api))
        → has_shut ops ≡ false
        → net.read_body is_sse ≡ answer
        → (has_shut (finished ssl (done (streaming is_sse), ops)).1 ≡ true)
          ↔ IsServed (done (streaming is_sse)) (finished ssl (done (streaming is_sse), ops))
    unfolding serve_body shut_down
    body-shut ssl is_sse (done tt) ops q e = rw e (
      λ h. record { returned = refl; accepted = refl },
      λ v. has_shut-append ops _ ∙ ground (arith, q, is_shut-closing_op ssl),
    )
    body-shut ssl is_sse (failed text) ops q e = rw e (
      λ h. absurd (ground (arith, has_shut-append ops (reading_body is_sse ∷ []), q, h)),
      λ v. absurd (let r = v.returned in cc),
    )

    finished-shut :
        (ssl : Bool) (answer : Io Reply) (ops : List (Op peer api))
        → has_shut ops ≡ false
        → (has_shut (finished ssl (answer, ops)).1 ≡ true)
          ↔ IsServed answer (finished ssl (answer, ops))
    unfolding serve_body shut_down
    finished-shut ssl (failed text) ops q =
        (λ h. absurd (ground (arith, q, h)), λ v. absurd (let r = v.returned in cc))
    finished-shut ssl (done (rejected text)) ops q = (
      λ h. absurd (ground (arith, has_shut-append ops [], q, h)),
      λ v. absurd (ground (arith, v.accepted)),
    )
    finished-shut ssl (done gone) ops q = (
      λ h. record { returned = refl; accepted = refl },
      λ v. has_shut-append ops _ ∙ ground (arith, q, is_shut-closing_op ssl),
    )
    finished-shut ssl (done (streaming is_sse)) ops q =
        body-shut ssl is_sse (net.read_body is_sse) ops q refl

    -- A stream's connection is shut down exactly when its session ends without an exception and the server did not
    -- reject the request: also where close() has ended the generation by the time the header is read.
    pub shut_iff :
        (ssl : Bool)
        → (has_shut (whole_session peer api ssl net t).1 ≡ true)
          ↔ IsServed (stream_session peer api ssl net t).0 (whole_session peer api ssl net t)
    unfolding whole_session
    shut_iff ssl =
        let r = stream_session peer api ssl net t in
        finished-shut ssl r.0 r.1 (stream_session-Unshut ssl).quiet
