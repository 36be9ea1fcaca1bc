-- ===== src/StreamSession/Constructed.antt =====
-- src/http_stream.cpp: the constructor of HttpStream, which reads the URL, and the sessions of the stream that
-- it makes.
use slick_net.Prelude.{◌≡◌, subst, Bool, true, [], none, Bytes, codes}
use slick_net.Url.{Parsed, Outcome, refused, parsed, ◌>>=◌, parse_url}
use slick_net.Tls.{PeerApi}
use slick_net.Tls.PeerHost.{IsBound}
use slick_net.HttpRequest.{url_error_text}
use slick_net.HttpRequest.Message.{FieldsApi, Headers}
use slick_net.HttpRequest.Session.{failed}
use slick_net.StreamSession.{Reply, Net, Target, Run, stream_session}
use slick_net.StreamSession.Verified.{request_sent, stream_session-verified}

-- The members that the constructor sets: whether a session connects with TLS, and what it reads.
pub record Members : Type 0 where
  pub use_ssl : Bool
  pub target : Target

unfoldable pub made_of : Headers → Parsed → Members
made_of headers p = record {
  use_ssl = p.use_ssl;
  target = record {
    host = p.host;
    port = p.port;
    target = p.target;
    host_header = p.host_header;
    headers = headers;
  };
}

unfoldable pub construct : Bytes → Headers → Outcome Members
unfolding made_of
construct url headers = do p ← parse_url url; parsed (made_of headers p)

module _ (peer : PeerApi) (api : FieldsApi) where
  -- A session of a stream; a URL that is refused makes none.
  unfoldable pub session_of : Net peer api → Outcome Members → Run peer api Reply
  session_of net (refused e) = (failed (url_error_text (codes "http") (codes "https") e), [])
  session_of net (parsed s) = stream_session peer api s.use_ssl net s.target

  unfoldable pub url_session : Net peer api → Bytes → Headers → Run peer api Reply
  unfolding session_of construct
  url_session net url headers = session_of net (construct url headers)

  module _ (net : Net peer api) (headers : Headers) where
    -- What has happened behind a request to this URL.
    abbrev pub IsVerified : Parsed → Type 0
    IsVerified p =
        (handle : PeerApi.Handle peer) × IsBound peer p.host net.fresh handle
        × (net.handshake handle ≡ none)

    made-IsVerified :
        (p : Parsed)
        → p.use_ssl ≡ true
        → request_sent peer api net
            (made_of headers p).target
            (stream_session peer api p.use_ssl net (made_of headers p).target).1
          ≡ true
        → IsVerified p
    unfolding made_of
    made-IsVerified p t s = stream_session-verified peer api net (made_of headers p).target (
        subst
          (λ b.
            request_sent peer api net (made_of headers p).target
              (stream_session peer api b net (made_of headers p).target).1
            ≡ true)
          t s)

    -- A stream to an https URL sends its request only behind a handshake that succeeded, with a handle that demands a
    -- certificate for the URL's host.
    pub url_session-IsVerified :
        (url : Bytes) (p : Parsed) (t : Target)
        → parse_url url ≡ parsed p
        → p.use_ssl ≡ true
        → request_sent peer api net t (url_session net url headers).1 ≡ true
        → IsVerified p
    unfolding url_session construct session_of made_of
    url_session-IsVerified url p t e u s = made-IsVerified p u (
        subst
          (λ (o : Outcome Parsed).
            request_sent peer api net (made_of headers p).target
              (session_of net (o >>= λ q. parsed (made_of headers q))).1
            ≡ true)
          e s)
