-- ===== src/SyncRequests/Tests.antt =====
-- A call on an empty pool, which passes all sixteen slots, makes a context and parks it in the first slot.
use slick_net.Prelude.{ℕ, one, ltb, ◌≡◌, refl, [], ◌∷◌, none, some, length}
use slick_net.SyncRequests.{free_slots}
use slick_net.SyncRequests.Concurrent.{
  Contexts, at_load, begin_acquire, take_slot, make_context, begin_release, park_slot, Reach, start,
  next, acquires, takes, makes, releases, parks, places, context_in_one_place,
}

-- The call of acquire behind the last slot.
abbrev searched : Contexts
searched = record at_load { acquiring = 16 ∷ [] }

searched-Reach : Reach searched
unfolding begin_acquire take_slot
searched-Reach =
    next
      (next
        (next
          (next
            (next
              (next
                (next
                  (next
                    (next
                      (next
                        (next
                          (next
                            (next
                              (next
                                (next
                                  (next (next start acquires) (
                                    takes none 0 [] [] (free_slots 0) (free_slots 15) refl refl
                                      refl))
                                  (takes none 1 [] [] (free_slots 1) (free_slots 14) refl refl
                                    refl))
                                (takes none 2 [] [] (free_slots 2) (free_slots 13) refl refl refl))
                              (takes none 3 [] [] (free_slots 3) (free_slots 12) refl refl refl))
                            (takes none 4 [] [] (free_slots 4) (free_slots 11) refl refl refl))
                          (takes none 5 [] [] (free_slots 5) (free_slots 10) refl refl refl))
                        (takes none 6 [] [] (free_slots 6) (free_slots 9) refl refl refl))
                      (takes none 7 [] [] (free_slots 7) (free_slots 8) refl refl refl))
                    (takes none 8 [] [] (free_slots 8) (free_slots 7) refl refl refl))
                  (takes none 9 [] [] (free_slots 9) (free_slots 6) refl refl refl))
                (takes none 10 [] [] (free_slots 10) (free_slots 5) refl refl refl))
              (takes none 11 [] [] (free_slots 11) (free_slots 4) refl refl refl))
            (takes none 12 [] [] (free_slots 12) (free_slots 3) refl refl refl))
          (takes none 13 [] [] (free_slots 13) (free_slots 2) refl refl refl))
        (takes none 14 [] [] (free_slots 14) (free_slots 1) refl refl refl))
      (takes none 15 [] [] (free_slots 15) (free_slots 0) refl refl refl)

abbrev served : Contexts
served = park_slot none 0 [] [] (free_slots 15) (begin_release 0 [] (make_context [] searched))

served-Reach : Reach served
unfolding make_context begin_release
served-Reach =
    next (next (next searched-Reach (makes 16 [] [] refl refl)) (releases 0 [] [] refl))
      (parks none 0 [] [] [] (free_slots 15) refl refl refl)

test_served : served.slots ≡ some 0 ∷ free_slots 15
unfolding park_slot make_context begin_release
test_served = refl

context_in_one_place_example :
    ((k : ℕ) → places k served ≡ one (ltb k served.contexts)) × (length served.slots ≡ 16)
context_in_one_place_example = context_in_one_place served-Reach
