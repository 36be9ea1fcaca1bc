-- ===== src/HttpRequest/Message.antt =====
-- make_request: the message, and which value each of its header fields has.
use slick_net.Prelude.{
  ℕ, ◌≡◌, refl, ap, ◌∙◌, Bool, false, List, [], ◌∷◌, Option, none, some, Bytes, codes,
  if◌then◌else◌, length,
}
use slick_net.HttpRequest.{Verb}

-- Beast's header fields. `set` replaces every field of that name, where names that differ in case alone are the same;
-- prepare_payload sets or removes the fields that frame a body, and no others.
pub record FieldsApi : Type 1 where
  pub Fields : Type 0
  pub no_fields : Fields
  pub set : Bytes → Bytes → Fields → Fields
  pub get : Bytes → Fields → Option Bytes
  pub prepare_payload : ℕ → Fields → Fields
  pub same : Bytes → Bytes → Bool
  pub frames : Bytes → Bool  -- Content-Length, Transfer-Encoding
  pub version_string : Bytes  -- BOOST_BEAST_VERSION_STRING
  pub get-no_fields : (n : Bytes) → get n no_fields ≡ none
  pub get-set :
      (n m v : Bytes) (f : Fields) → get n (set m v f) ≡ (if same m n then some v else get n f)
  pub get-prepare_payload :
      (n : Bytes) (k : ℕ) (f : Fields) → frames n ≡ false → get n (prepare_payload k f) ≡ get n f

abbrev pub Headers : Type 0
Headers = List (Bytes × Bytes)

abbrev pub host_name : Bytes
host_name = codes "Host"

abbrev pub user_agent : Bytes
user_agent = codes "User-Agent"

module _ (api : FieldsApi) where
  open api use {Fields, no_fields, set, get, prepare_payload, same, frames, version_string}

  -- http::request<http::string_body>
  pub record Message : Type 0 where
    pub method : Verb
    pub target : Bytes
    pub version : ℕ
    pub fields : Fields
    pub body : Bytes

  -- The loop over the caller's headers.
  pub set_headers : Headers → Fields → Fields
  set_headers [] f = f
  set_headers ((name, value) ∷ headers) f = set_headers headers (set name value f)

  -- The body, where there is one.
  with_body : Bytes → Message → Message
  with_body [] req = req
  with_body (c ∷ cs) req = record req {
    body = c ∷ cs;
    fields = prepare_payload (length (c ∷ cs)) req.fields;
  }

  pub make_request : Bytes → Bytes → Verb → Headers → Bytes → ℕ → Message
  unfolding set_headers with_body
  make_request host_header target method headers body version = with_body body (record {
    method = method;
    target = target;
    version = version;
    fields =
        set_headers headers (set user_agent version_string (set host_name host_header no_fields));
    body = [];
  })

  -- The value of the last header of that name, or else `otherwise`.
  abbrev pub last_value : Bytes → Headers → Option Bytes → Option Bytes
  last_value n [] otherwise = otherwise
  last_value n ((name, value) ∷ headers) otherwise =
      last_value n headers (if same name n then some value else otherwise)

  pub get-set_headers :
      (n : Bytes) (headers : Headers) (f : Fields)
      → get n (set_headers headers f) ≡ last_value n headers (get n f)
  unfolding set_headers
  get-set_headers n [] f = refl
  get-set_headers n ((name, value) ∷ headers) f =
      rw (get-set_headers n headers (set name value f), api.get-set n name value f)

  get-with_body :
      (n body : Bytes) (req : Message)
      → frames n ≡ false
      → get n (with_body body req).fields ≡ get n req.fields
  unfolding with_body
  get-with_body n [] req h = refl
  get-with_body n (c ∷ cs) req h = api.get-prepare_payload n (length (c ∷ cs)) req.fields h

  -- Every field of a request but those that frame its body has the value of the last header of that name that
  -- the caller gave, whatever its case; else User-Agent is Beast's version, Host is the URL's, and no other
  -- field is there.
  pub get-make_request :
      (n host_header target : Bytes) (method : Verb) (headers : Headers) (body : Bytes)
      (version : ℕ)
      → frames n ≡ false
      → get n (make_request host_header target method headers body version).fields
        ≡ last_value n headers (
            if same user_agent n
            then some version_string
            else if same host_name n
            then some host_header
            else none)
  unfolding make_request
  get-make_request n host_header target method headers body version h =
      get-with_body n body _ h
      ∙ get-set_headers n headers
          (set user_agent version_string (set host_name host_header no_fields))
      ∙ ap (last_value n headers) (
          api.get-set n user_agent version_string (set host_name host_header no_fields)
          ∙ ap (λ (o : Option Bytes). if same user_agent n then some version_string else o)
              (api.get-set n host_name host_header no_fields
                ∙ ap (λ (o : Option Bytes). if same host_name n then some host_header else o)
                    (api.get-no_fields n)))
