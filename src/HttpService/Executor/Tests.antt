-- ===== src/HttpService/Executor/Tests.antt =====
-- A delivery with an executor that is moved, and one that is abandoned.
use slick_net.Prelude.{◌+◌, ◌≡◌, refl, true, false, [], ◌∷◌, one}
use slick_net.HttpService.Executor.{
  Traffic, made, make_delivery, move_delivery, call_delivery, move_in, call_in, destroy_in, Reach,
  start, next, moves, calls,
}
use slick_net.HttpService.Executor.InOnePlace.{holders, executor_in_one_place}

-- Moved into the handler, called there, and both objects destroyed.
abbrev delivered : Traffic
delivered =
    let a = make_delivery true in
    let b = move_delivery a in let c = move_in a [] (made true) in call_in true b.0 (b.1 ∷ []) c

delivered-reached : Reach true delivered
unfolding make_delivery move_delivery move_in
delivered-reached = next (next start (moves _ [] [] refl)) (calls true _ [] _ refl)

executor_in_one_place_example :
    (delivered.misused ≡ false)
    × (holders delivered.objects + delivered.posted + delivered.leaked ≡ one true)
executor_in_one_place_example = executor_in_one_place delivered-reached

-- An abandoned request leaves its executor behind.
abbrev abandoned : Traffic
abandoned =
    destroy_in (call_delivery false (make_delivery true)).0 []
      (call_in false (make_delivery true) [] (made true))

test_abandoned : (delivered.posted ≡ 1) × (abandoned.posted ≡ 0) × (abandoned.leaked ≡ 1)
unfolding make_delivery move_delivery call_delivery move_in call_in destroy_in
test_abandoned = (refl, refl, refl)
