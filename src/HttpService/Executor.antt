-- ===== src/HttpService/Executor.antt =====
-- The executor that response_delivery in src/http.cpp holds in a union, constructed and destroyed by hand: what its
-- moves, its call and its empty destructor do with it. co_spawn may move the handler that holds a delivery any
-- number of times.
pub mod InOnePlace
mod Tests
use slick_net.Prelude.{
  ℕ, ◌+◌, ◌≡◌, Bool, true, false, not, ◌&&◌, ◌||◌, List, [], ◌∷◌, ◌++◌, one, if◌then◌else◌,
}

-- The storage of executor_: nothing in it, an executor, or one that was moved from.
pub data Slot : Type 0 where
  raw holding moved_from : Slot

pub record Object : Type 0 where
  pub has_executor : Bool
  pub slot : Slot

-- The deliveries of one request that are not destroyed, and the executors that were posted to or left behind;
-- `misused` tells whether empty storage was ever read or destroyed.
pub record Traffic : Type 0 where
  pub objects : List Object
  pub posted : ℕ
  pub leaked : ℕ
  pub misused : Bool

-- executor_.~any_io_executor(), and whether that is misuse.
abbrev executor_destroyed : Slot → Slot × Bool
executor_destroyed raw = (raw, true)
executor_destroyed _ = (raw, false)

-- std::move(executor_) into another executor.
abbrev executor_taken : Slot → Slot × Bool
executor_taken holding = (moved_from, false)
executor_taken s = (s, true)

-- The constructor.
unfoldable pub make_delivery : Bool → Object
make_delivery given = record { has_executor = given; slot = if given then holding else raw }

-- The move constructor: the new object, the old one, and whether it misused the storage.
unfoldable pub move_delivery : Object → Object × Object × Bool
move_delivery o =
    let (left, early) = executor_taken o.slot in
    let (rest, late) = executor_destroyed left in
    if o.has_executor
    then (
      record { has_executor = true; slot = holding },
      record { has_executor = false; slot = rest },
      early || late,
    )
    else (record { has_executor = false; slot = raw }, record o { has_executor = false }, false)

abbrev pub is_holding : Slot → Bool
is_holding holding = true
is_holding _ = false

-- operator(): what is left of the object, whether it posted to the executor, and whether it misused the storage.
unfoldable pub call_delivery : Bool → Object → Object × Bool × Bool
call_delivery current o =
    let (rest, late) = executor_destroyed o.slot in
    if current && o.has_executor
    then (record { has_executor = false; slot = rest }, true, not (is_holding o.slot) || late)
    else (o, false, false)

abbrev pub made : Bool → Traffic
made given = record { objects = make_delivery given ∷ []; posted = 0; leaked = 0; misused = false }

unfoldable pub move_in : Object → List Object → Traffic → Traffic
unfolding move_delivery
move_in o rest s =
    let (new, old, bad) = move_delivery o in
    record s { objects = new ∷ old ∷ rest; misused = s.misused || bad }

unfoldable pub call_in : Bool → Object → List Object → Traffic → Traffic
unfolding call_delivery
call_in current o rest s =
    let (left, posts, bad) = call_delivery current o in
    record s { objects = left ∷ rest; posted = s.posted + one posts; misused = s.misused || bad }

-- The destructor, which leaves the storage alone.
unfoldable pub destroy_in : Object → List Object → Traffic → Traffic
destroy_in o rest s = record s { objects = rest; leaked = s.leaked + one (is_holding o.slot) }

-- Any of the objects may be moved from, called or destroyed; `current` tells whether the epoch is that of the
-- request.
pub data Step (s : Traffic) : Traffic → Type 0 where
  moves :
      (o : Object) (before after : List Object)
      → s.objects ≡ before ++ o ∷ after
      → Step s (move_in o (before ++ after) s)
  calls :
      (current : Bool) (o : Object) (before after : List Object)
      → s.objects ≡ before ++ o ∷ after
      → Step s (call_in current o (before ++ after) s)
  destroys :
      (o : Object) (before after : List Object)
      → s.objects ≡ before ++ o ∷ after
      → Step s (destroy_in o (before ++ after) s)

pub data Reach (given : Bool) : Traffic → Type 0 where
  start : Reach given (made given)
  next : {s t : Traffic} → Reach given s → Step s t → Reach given t
