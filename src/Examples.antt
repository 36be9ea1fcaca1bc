-- ===== src/Examples.antt =====
-- Concrete parameters for the tests: a TLS library, header fields and a network that behave as documented.
use slick_net.Prelude.{
  ◌≡◌, refl, ap, sym, Bool, true, false, [], ◌∷◌, Option, none, some, Bytes, codes, ◌==◌, ◌&&◌,
  if◌then◌else◌,
}
use slick_net.Tls.{PeerApi, RootsApi}
use slick_net.HttpRequest.Message.{FieldsApi}
use slick_net.HttpRequest.Session as Request
use slick_net.StreamSession as Stream
use slick_net.WebsocketConnect as Socket

some_eq : {A : Type 0} (a b : A) → some a ≡ some b → a ≡ b
some_eq a b e = cc

pub demanded : (a b : Option Bytes × Option Bytes) → some a ≡ some b → b.0 ≡ a.0
demanded a b e = sym (ap (λ (p : Option Bytes × Option Bytes). p.0) (some_eq a b e))

pub announced : (a b : Option Bytes × Option Bytes) → some a ≡ some b → b.1 ≡ a.1
announced a b e = sym (ap (λ (p : Option Bytes × Option Bytes). p.1) (some_eq a b e))

-- A handle is the identity that it demands and its SNI.
abbrev pub peer_api : PeerApi
peer_api = record {
  Handle = Option Bytes × Option Bytes;
  is_address = λ b. false;
  set_ip = λ b h. some (some b, h.1);
  forbid_partial = λ h. h;
  set_server_name = λ b h. some (h.0, some b);
  set_host = λ b h. some (some b, h.1);
  next_error = 0;
  expected = λ h. h.0;
  server_name = λ h. h.1;
  set_ip-expected = λ b h k e. demanded (some b, h.1) k e;
  set_ip-server_name = λ b h k e. announced (some b, h.1) k e;
  set_host-expected = λ b h k e. demanded (some b, h.1) k e;
  set_host-server_name = λ b h k e. announced (some b, h.1) k e;
  set_server_name-server_name = λ b h k e. announced (h.0, some b) k e;
}

abbrev same_bytes : Bytes → Bytes → Bool
same_bytes [] [] = true
same_bytes [] (c ∷ cs) = false
same_bytes (b ∷ bs) [] = false
same_bytes (b ∷ bs) (c ∷ cs) = (b == c) && same_bytes bs cs

-- Fields are what they give for a name.
abbrev pub fields_api : FieldsApi
fields_api = record {
  Fields = Bytes → Option Bytes;
  no_fields = λ n. none;
  set = λ m v f n. if same_bytes m n then some v else f n;
  get = λ n f. f n;
  prepare_payload = λ k f. f;
  same = same_bytes;
  frames = λ n. false;
  version_string = codes "Beast";
  get-no_fields = λ n. refl;
  get-set = λ n m v f. refl;
  get-prepare_payload = λ n k f e. refl;
}

-- No bundle but the last loads.
abbrev pub roots_api : RootsApi
roots_api = record {
  file_env = false;
  dir_env = false;
  has_default_file = false;
  loads = λ p. same_bytes p (codes "/etc/ssl/cert.pem");
}

abbrev pub received : Request.Received
received = record { result_int = 200; reason = codes "OK"; body = codes "hi" }

abbrev pub request_net : Request.Net peer_api fields_api
request_net = record {
  resolve = λ host port. Request.done 1;
  connect = λ results. Request.done tt;
  handshake = λ handle. none;
  write = λ req. Request.done tt;
  read = Request.done received;
  text_of = λ a b. a;
  message_of = λ e. codes "error";
  fresh = (none, none);
}

-- close() is called while the stream connects: the third test finds it.
abbrev pub closed_net : Stream.Net peer_api fields_api
closed_net = record {
  resolve = λ host port. Request.done 1;
  connect = λ results. Request.done tt;
  handshake = λ handle. none;
  write = λ target fields. Request.done tt;
  read_header = Request.done (record { status = 200; reason = codes "OK"; is_sse = true });
  read_body = λ is_sse. Request.done tt;
  is_current = λ k. if k == 2 then false else true;
  upgrades = true;
  aborted = codes "aborted";
  text_of = λ a b. a;
  message_of = λ e. codes "error";
  fresh = (none, none);
}

abbrev pub open_net : Stream.Net peer_api fields_api
open_net = record closed_net { is_current = λ k. true }

abbrev pub target : Stream.Target
target = record {
  host = codes "h";
  port = codes "443";
  target = codes "/";
  host_header = codes "h";
  headers = [];
}

abbrev pub socket_net : Socket.Net peer_api
socket_net = record {
  resolve = λ host port. Request.done 1;
  connect = λ results. Request.done 443;
  handshake = λ handle. none;
  upgrade = λ host_header path. Request.done tt;
  text_of = λ a b. a;
  message_of = λ e. codes "error";
  fresh = (none, none);
}
