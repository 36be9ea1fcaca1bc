-- ===== src/HttpRequest/Tests.antt =====
-- A failure, and a request whose caller sets the Host header.
use slick_net.Prelude.{◌≡◌, refl, [], ◌∷◌, Bytes, some, codes}
use slick_net.HttpRequest.{get_verb}
use slick_net.HttpRequest.Message.{host_name, make_request, get-make_request}
use slick_net.HttpRequest.Message.{FieldsApi}
use slick_net.Examples.{fields_api}

abbrev own_host : Bytes × Bytes
own_host = (codes "Host", codes "mine")

get-make_request_example :
    FieldsApi.get fields_api host_name
      (make_request fields_api (codes "h") (codes "/") get_verb (own_host ∷ []) [] 11).fields
    ≡ some (codes "mine")
get-make_request_example =
    get-make_request fields_api host_name (codes "h") (codes "/") get_verb (own_host ∷ []) [] 11
      refl
