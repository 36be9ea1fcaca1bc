-- ===== src/HttpService/Thread.antt =====
-- run_service_thread of src/http.cpp, and that of src/http_stream.cpp: the function of a thread that serves an
-- io_context. What each call of run() comes to is given, in order; run() returns only once the context is stopped.
use slick_net.Prelude.{◌≡◌, refl, ap, List, [], ◌∷◌, ◌++◌, map, Bytes}

-- run() returns, or a handler throws out of it: a std::exception with its text, or something else.
pub data Ran : Type 0 where
  returned : Ran
  threw : Bytes → Ran
  threw_unknown : Ran

-- The thread blocks in run(), its function has returned, or std::terminate has ended the process.
pub data Thread : Type 0 where
  blocked ended terminated : Thread

-- The loop: where the thread stands behind these calls of run(), and the errors that it has logged.
pub run_service_thread : List Ran → Thread × List Bytes
run_service_thread [] = (blocked, [])
run_service_thread (returned ∷ later) = (ended, [])
run_service_thread (threw what ∷ later) =
    let rest = run_service_thread later in (rest.0, what ∷ rest.1)
run_service_thread (threw_unknown ∷ later) = (terminated, [])

pub run_stream_thread : List Ran → Thread × List Bytes
run_stream_thread [] = (blocked, [])
run_stream_thread (returned ∷ later) = (ended, [])
run_stream_thread (threw what ∷ later) =
    let rest = run_stream_thread later in (rest.0, what ∷ rest.1)
run_stream_thread (threw_unknown ∷ later) = (terminated, [])

-- Handlers that throw a std::exception, however many, neither end a service thread nor keep it from what comes next:
-- each is logged once, in order, and the thread goes on as if they had not been there.
pub keeps_serving :
    (texts : List Bytes) (later : List Ran)
    → (run_service_thread (map threw texts ++ later)
        ≡ ((run_service_thread later).0, texts ++ (run_service_thread later).1))
      × (run_stream_thread (map threw texts ++ later)
          ≡ ((run_stream_thread later).0, texts ++ (run_stream_thread later).1))
unfolding run_service_thread run_stream_thread
keeps_serving [] later = (refl, refl)
keeps_serving (what ∷ texts) later =
    let (a, b) = keeps_serving texts later in
    (
      ap (λ (r : Thread × List Bytes). (r.0, what ∷ r.1)) a,
      ap (λ (r : Thread × List Bytes). (r.0, what ∷ r.1)) b,
    )

-- It ends where run() returns, and only there.
pub ended_by_stop :
    (runs : List Ran)
    → (run_service_thread runs).0 ≡ ended
    → (texts : List Bytes) × (later : List Ran) × (runs ≡ map threw texts ++ returned ∷ later)
unfolding run_service_thread
ended_by_stop [] e = cc
ended_by_stop (returned ∷ later) e = ([], later, refl)
ended_by_stop (threw what ∷ runs) e =
    let (texts, later, q) = ended_by_stop runs e in
    (what ∷ texts, later, ap (λ (r : List Ran). threw what ∷ r) q)
ended_by_stop (threw_unknown ∷ later) e = cc
