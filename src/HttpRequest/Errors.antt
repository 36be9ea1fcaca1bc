-- ===== src/HttpRequest/Errors.antt =====
-- What the caller gets of a request that failed, and of the three forms of each operation.
use slick_net.Prelude.{◌≡◌, refl, false, [], Bytes}
use slick_net.HttpRequest.{
  is_ok, Outcome, responded, threw, threw_unknown, async_response, sync_response, Method, get, post,
  put, patch, del, sync_call, callback_call, direct_call, awaitable_call,
}

-- The request ended with an exception.
abbrev pub IsFailure : Outcome → Type 0
IsFailure (responded r) = ⊥
IsFailure _ = Unit {0}

-- A request that fails gives a response with code 500, which is not ok, in each form. Its text is the reason of the
-- response to a callback and the result_text of a synchronous one, and the other field is empty.
pub failure_responses :
    (o : Outcome)
    → IsFailure o
    → ((async_response o).result_code ≡ 500)
      × ((sync_response o).result_code ≡ 500)
      × (is_ok (async_response o) ≡ false)
      × (is_ok (sync_response o) ≡ false)
      × ((async_response o).reason ≡ (sync_response o).result_text)
      × ((async_response o).result_text ≡ [])
      × ((sync_response o).reason ≡ [])
unfolding async_response sync_response is_ok
failure_responses (responded r) h = absurd h
failure_responses (threw text) h = (refl, refl, refl, refl, refl, refl, refl)
failure_responses threw_unknown h = (refl, refl, refl, refl, refl, refl, refl)

-- The synchronous, the callback, with an executor or without, and the awaitable form of each operation make the
-- same request.
pub forms_agree :
    (m : Method) (text : Bytes)
    → (callback_call m text ≡ sync_call m text)
      × (direct_call m text ≡ (false, sync_call m text))
      × (awaitable_call m text ≡ sync_call m text)
unfolding callback_call direct_call sync_call awaitable_call
forms_agree get text = (refl, refl, refl)
forms_agree post text = (refl, refl, refl)
forms_agree put text = (refl, refl, refl)
forms_agree patch text = (refl, refl, refl)
forms_agree del text = (refl, refl, refl)
