-- ===== src/StreamCancel/Pending.antt =====
-- A session that close() has ended does not wait for its I/O for ever.
use slick_net.Prelude.{
  ℕ, ◌+◌, ◌-◌, ◌/◌, ◌%◌, ◌^◌, ◌≤◌, ◌<◌, ◌≡◌, refl, sym, ap, ◌∙◌, true, false, Option, none, some,
  inl, inr, arith, ◌==◌, ◌*◌, Bool-cases, not, ◌&&◌, ◌||◌,
}
use slick_net.HttpStream.{max_opened}
use slick_net.HttpStream.Word.{generation_of, open_attempt, end_attempt, is_current}
use slick_net.StreamCancel.{
  Registry, fresh, opened_by, open_word, closed_by, close_word, post_cancel, cancel_in, run_cancel,
  register, unregister, check_open, ended_by, finish, Step, opens, closes, posts, cancels,
  registers, checks, unregisters, finishes, Reach, start, next,
}

record Inv (s : Registry) : Type 0 where
  counted : s.word / 4 ≡ s.opened
  known_status : s.word % 4 < 3
  bounded : s.opened < 2 ^ 62
  behind : (g : ℕ) → s.session ≡ some g → g ≤ s.opened
  pending :
      (g : ℕ)
      → s.session ≡ some g
      → s.checked ≡ true
      → is_current g s.word ≡ false
      → s.cancelled ≡ false
      → 1 ≤ s.closing + s.posted

fresh-Inv : Inv fresh
fresh-Inv = record {
  counted = omega arith;
  known_status = omega arith;
  bounded = omega arith;
  behind = λ g e. absurd (ground (arith, e));
  pending = λ g e. absurd (ground (arith, e));
}

gone : (g w : ℕ) → (w % 4 == 2) ≡ true → is_current g w ≡ false
unfolding is_current
gone g w e = ground (arith, e)

open_word-Inv : (s : Registry) → s.opened < max_opened → Inv s → Inv (open_word s)
unfolding open_word open_attempt opened_by
open_word-Inv s h v = elim (Bool-cases (s.word % 4 == 2)) [
  | inl e ↦
      let w = (s.word / 4 + 1) % 2 ^ 64 * 4 % 2 ^ 64 + 0 in
      rw e (record {
        counted = omega (arith, h, v.counted);
        known_status = omega (arith, h, v.counted);
        bounded = omega (arith, h);
        behind = λ g x. omega (arith, v.behind g x);
        pending = λ g x c n a. v.pending g x c (gone g s.word e) a;
      })
  | inr e ↦ rw e v
]

close_word-Inv : (s : Registry) → Inv s → Inv (close_word s)
unfolding close_word end_attempt closed_by
close_word-Inv s v = elim (Bool-cases (s.word % 4 == 2)) [
  | inl e ↦ rw e v
  | inr e ↦ rw e (record {
    counted = omega (arith, v.counted, v.bounded);
    known_status = omega (arith, v.counted, v.bounded);
    bounded = v.bounded;
    behind = v.behind;
    pending = λ g x c n a. omega arith;
  })
]

post_cancel-Inv : (s : Registry) → 1 ≤ s.closing → Inv s → Inv (post_cancel s)
unfolding post_cancel
post_cancel-Inv s h v = record {
  counted = v.counted;
  known_status = v.known_status;
  bounded = v.bounded;
  behind = v.behind;
  pending = λ g x c n a. omega (arith, h, v.pending g x c n a);
}

clash : (k g w : ℕ) → some k ≡ some g → is_current k w ≡ false → is_current g w ≡ true → ⊥
clash k g w q n y = let r : k ≡ g = cc in ground (arith, sym n ∙ ap (λ i. is_current i w) r ∙ y)

-- The handler finds the session that it is to cancel, or one that is open, or none.
cancel_in-Inv :
    (o : Option ℕ) (s : Registry) (p : ℕ)
    → s.session ≡ o
    → Inv s
    → Inv (cancel_in o (record s { posted = p }))
unfolding cancel_in
cancel_in-Inv none s p e v = record {
  counted = v.counted;
  known_status = v.known_status;
  bounded = v.bounded;
  behind = v.behind;
  pending = λ g x c n a. absurd (ground (arith, e, x));
}
cancel_in-Inv (some g) s p e v = elim (Bool-cases (is_current g s.word)) [
  | inl y ↦ rw y (record {
    counted = v.counted;
    known_status = v.known_status;
    bounded = v.bounded;
    behind = v.behind;
    pending = λ k x c n a. absurd (clash k g s.word (sym x ∙ e) n y);
  })
  | inr n ↦ rw n (record {
    counted = v.counted;
    known_status = v.known_status;
    bounded = v.bounded;
    behind = v.behind;
    pending = λ k x c m a. absurd (ground (arith, a));
  })
]

register-Inv : (g : ℕ) (s : Registry) → g ≤ generation_of s.word → Inv s → Inv (register g s)
unfolding register generation_of
register-Inv g s h v = record {
  counted = v.counted;
  known_status = v.known_status;
  bounded = v.bounded;
  behind = λ k e. ground (arith, h, v.counted, e);
  pending = λ k e c. absurd (ground (arith, c));
}

-- No session is registered behind the step.
alone : (s : Registry) → Inv s → Inv (record s { session = none })
alone s v = record {
  counted = v.counted;
  known_status = v.known_status;
  bounded = v.bounded;
  behind = λ k e. absurd (ground (arith, e));
  pending = λ k e. absurd (ground (arith, e));
}

check_open-Inv : (g : ℕ) (s : Registry) → s.session ≡ some g → Inv s → Inv (check_open g s)
unfolding check_open
check_open-Inv g s e v = elim (Bool-cases (is_current g s.word)) [
  | inl y ↦ rw y (record {
    counted = v.counted;
    known_status = v.known_status;
    bounded = v.bounded;
    behind = v.behind;
    pending = λ k x c n a. absurd (clash k g s.word (sym x ∙ e) n y);
  })
  | inr n ↦ rw n (alone s v)
]

finish-Inv : (g : ℕ) (s : Registry) → s.session ≡ none → Inv s → Inv (finish g s)
unfolding finish end_attempt ended_by
finish-Inv g s e v =
    elim (Bool-cases (s.word % 4 == 2 || (not (g == 0) && not (s.word / 4 == g)))) [
      | inl y ↦ rw y v
      | inr n ↦ rw n (record {
        counted = omega (arith, v.counted, v.bounded);
        known_status = omega (arith, v.counted, v.bounded);
        bounded = v.bounded;
        behind = v.behind;
        pending = λ k x. absurd (ground (arith, e, x));
      })
    ]

Step-Inv : {s t : Registry} → Step s t → Inv s → Inv t
unfolding run_cancel unregister
Step-Inv {s} (opens h) v = open_word-Inv s h v
Step-Inv {s} closes v = close_word-Inv s v
Step-Inv {s} (posts h) v = post_cancel-Inv s h v
Step-Inv {s} (cancels h) v = cancel_in-Inv s.session s (s.posted - 1) refl v
Step-Inv {s} (registers g h e) v = register-Inv g s h v
Step-Inv {s} (checks g e c) v = check_open-Inv g s e v
Step-Inv {s} (unregisters g e) v = alone s v
Step-Inv {s} (finishes g e) v = finish-Inv g s e v

Reach-Inv : {s : Registry} → Reach s → Inv s
Reach-Inv start = fresh-Inv
Reach-Inv (next r e) = Step-Inv e (Reach-Inv r)

-- A session that waits for its I/O, behind its first test, while its generation has ended has been cancelled
-- already, or a close() has still to post the handler that cancels it, or that handler is still to run:
-- whenever close() comes, no session is left to wait for a silent server.
pub closed-cancelled :
    {s : Registry} (g : ℕ)
    → Reach s
    → s.session ≡ some g
    → s.checked ≡ true
    → is_current g s.word ≡ false
    → s.cancelled ≡ false
    → 1 ≤ s.closing + s.posted
closed-cancelled g r = (Reach-Inv r).pending g
