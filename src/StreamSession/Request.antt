-- ===== src/StreamSession/Request.antt =====
-- The GET request of a stream.
use slick_net.Prelude.{◌≡◌, ap, ◌∙◌, Option, none, some, Bytes, codes, if◌then◌else◌}
use slick_net.HttpRequest.Message.{
  FieldsApi, Headers, host_name, user_agent, last_value, get-set_headers,
}
use slick_net.StreamSession.{accept, cache_control, stream_request}

module _ (api : FieldsApi) where
  open api use {Fields, no_fields, set, get, same, version_string, get-set, get-no_fields}

  -- The value that a stream gives a field of its own accord.
  abbrev pub default_value : Bytes → Bytes → Option Bytes
  default_value host_header n =
      if same cache_control n
      then some (codes "no-cache")
      else if same accept n
      then some (codes "text/event-stream")
      else if same user_agent n
      then some version_string
      else if same host_name n
      then some host_header
      else none

  set_value :
      (m n v : Bytes) (f : Fields) (o : Option Bytes)
      → get n f ≡ o
      → get n (set m v f) ≡ (if same m n then some v else o)
  set_value m n v f o e =
      get-set n m v f ∙ ap (λ (x : Option Bytes). if same m n then some v else x) e

  get-default :
      (n host_header : Bytes)
      → get n (
          set cache_control (codes "no-cache") (
            set accept
              (codes "text/event-stream")
              (set user_agent version_string (set host_name host_header no_fields))))
        ≡ default_value host_header n
  get-default n host_header = set_value cache_control n (codes "no-cache") _ _ (
      set_value accept n (codes "text/event-stream") _ _ (
        set_value user_agent n version_string _ _
          (set_value host_name n host_header _ none (get-no_fields n))))

  -- Every field of the request of a stream has the value of the last header of that name that the caller gave,
  -- whatever its case; else Accept asks for "text/event-stream", Cache-Control is "no-cache", User-Agent is
  -- Beast's version and Host is the URL's, and no other field is there.
  pub get-stream_request :
      (n host_header : Bytes) (headers : Headers)
      → get n (stream_request api host_header headers)
        ≡ last_value api n headers (default_value host_header n)
  unfolding stream_request
  get-stream_request n host_header headers =
      get-set_headers api n headers _ ∙ ap (last_value api n headers) (get-default n host_header)
