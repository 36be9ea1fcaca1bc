-- ===== src/HttpRequest.antt =====
-- src/http.cpp: one HTTP request, from its URL to the Response that the caller gets.
-- Beast's header fields are a parameter, FieldsApi, and so is what the network answers, Net. A request of every kind,
-- synchronous, with a callback or awaited, is do_session_awaitable with a verb, the headers and a body.
pub mod Message
pub mod Session
pub mod Errors
mod Tests
use slick_net.Prelude.{
  ℕ, Bool, true, false, ◌&&◌, List, [], ◌∷◌, ◌++◌, ◌%◌, ◌^◌, Bytes, codes, leb, ltb,
}
use slick_net.Url.{UrlError, unsupported_scheme, invalid_ipv6, invalid_port}

-- Http::Response
pub record Response : Type 0 where
  pub result_code : ℕ
  pub reason : Bytes
  pub result_text : Bytes

-- Response::is_ok.
pub is_ok : Response → Bool
is_ok r = leb 200 r.result_code && ltb r.result_code 300

-- What ends a request: a response, an exception with its text, or one that is no std::exception.
pub data Outcome : Type 0 where
  responded : Response → Outcome
  threw : Bytes → Outcome
  threw_unknown : Outcome

-- Of a request with a callback: its completion handler, and async_error_response. The text is the second field of
-- Response, its reason.
unfoldable pub async_response : Outcome → Response
async_response (responded r) = r
async_response (threw text) = record { result_code = 500; reason = text; result_text = [] }
async_response threw_unknown = record {
  result_code = 500;
  reason = codes "Unknown error";
  result_text = [];
}

-- Of a synchronous request: the completion handler of run_sync_request, on a Response with its defaults.
unfoldable pub sync_response : Outcome → Response
sync_response (responded r) = r
sync_response (threw text) = record { result_code = 500; reason = []; result_text = text }
sync_response threw_unknown = record {
  result_code = 500;
  reason = [];
  result_text = codes "Unknown error";
}

-- The text of the std::invalid_argument that parse_url_parts throws, for the two schemes it was given.
pub url_error_text : Bytes → Bytes → UrlError → Bytes
url_error_text plain secure (unsupported_scheme scheme) =
    codes "Unsupported URL scheme '"
    ++ (scheme ++ (codes "', expected '" ++ (plain ++ (codes "' or '" ++ (secure ++ codes "'")))))
url_error_text plain secure (invalid_ipv6 authority) =
    codes "Invalid IPv6 literal in URL authority: " ++ authority
url_error_text plain secure (invalid_port authority) =
    codes "Invalid port in URL authority: " ++ authority

-- The operations of Http, each with its callback, synchronous and awaitable form.
pub data Method : Type 0 where
  get post put patch del : Method

-- http::verb
pub data Verb : Type 0 where
  get_verb post_verb put_verb patch_verb delete_verb : Verb

-- What a form hands to do_session_awaitable, next to the URL and the headers.
pub record Call : Type 0 where
  pub verb : Verb
  pub body : Bytes
  pub version : ℕ

-- Http::get to Http::del, through sync_request and run_sync_request.
pub sync_call : Method → Bytes → Call
sync_call get text = record { verb = get_verb; body = []; version = 11 }
sync_call post text = record { verb = post_verb; body = text; version = 11 }
sync_call put text = record { verb = put_verb; body = text; version = 11 }
sync_call patch text = record { verb = patch_verb; body = text; version = 11 }
sync_call del text = record { verb = delete_verb; body = text; version = 11 }

-- async_get to async_del with a callback, through spawn_async_request.
pub callback_call : Method → Bytes → Call
callback_call get text = record { verb = get_verb; body = []; version = 11 }
callback_call post text = record { verb = post_verb; body = text; version = 11 }
callback_call put text = record { verb = put_verb; body = text; version = 11 }
callback_call patch text = record { verb = patch_verb; body = text; version = 11 }
callback_call del text = record { verb = delete_verb; body = text; version = 11 }

-- Those of them without an executor pass an empty one on: whether an executor is given, and the call.
pub direct_call : Method → Bytes → Bool × Call
unfolding callback_call
direct_call get text = (false, callback_call get text)
direct_call post text = (false, callback_call post text)
direct_call put text = (false, callback_call put text)
direct_call patch text = (false, callback_call patch text)
direct_call del text = (false, callback_call del text)

-- The awaitable async_get to async_del.
pub awaitable_call : Method → Bytes → Call
awaitable_call get text = record { verb = get_verb; body = []; version = 11 }
awaitable_call post text = record { verb = post_verb; body = text; version = 11 }
awaitable_call put text = record { verb = put_verb; body = text; version = 11 }
awaitable_call patch text = record { verb = patch_verb; body = text; version = 11 }
awaitable_call del text = record { verb = delete_verb; body = text; version = 11 }
