-- ===== src/HttpService/Executor/InOnePlace.antt =====
-- The executor of a delivery is in one place.
use slick_net.Prelude.{
  ℕ, ◌+◌, ◌≡◌, refl, sym, ap, ◌∙◌, Bool, true, false, not, List, [], ◌∷◌, ◌++◌, one, arith,
}
use slick_net.HttpService.Executor.{
  Slot, raw, holding, moved_from, Object, Traffic, make_delivery, move_delivery, is_holding,
  call_delivery, made, move_in, call_in, destroy_in, Step, moves, calls, destroys, Reach, start,
  next,
}

-- The storage holds an executor exactly where the flag says so.
abbrev is_ill : Object → Bool
is_ill o = elim o.slot [ raw ↦ o.has_executor | holding ↦ not o.has_executor | moved_from ↦ true ]

abbrev count_if : (Object → Bool) → List Object → ℕ
count_if p [] = 0
count_if p (o ∷ l) = one (p o) + count_if p l

count_if-middle :
    (p : Object → Bool) (o : Object) (xs ys : List Object)
    → count_if p (xs ++ o ∷ ys) ≡ one (p o) + count_if p (xs ++ ys)
count_if-middle p o [] ys = refl
count_if-middle p o (x ∷ xs) ys = omega (arith, count_if-middle p o xs ys)

split :
    (p : Object → Bool) {l : List Object} (o : Object) (xs ys : List Object)
    → l ≡ xs ++ o ∷ ys
    → count_if p l ≡ one (p o) + count_if p (xs ++ ys)
split p o xs ys e = ap (count_if p) e ∙ count_if-middle p o xs ys

abbrev pub holders : List Object → ℕ
holders = count_if (λ o. is_holding o.slot)

record Inv (given : Bool) (s : Traffic) : Type 0 where
  well : count_if is_ill s.objects ≡ 0
  in_one_place : holders s.objects + s.posted + s.leaked ≡ one given
  proper : s.misused ≡ false

made-Inv : (given : Bool) → Inv given (made given)
unfolding make_delivery
made-Inv true = ground arith
made-Inv false = ground arith

one-none : (b : Bool) (n : ℕ) → one b + n ≡ 0 → b ≡ false
one-none true n e = absurd (omega (arith, e))
one-none false n e = refl

-- What a move and a call do with one object whose flag is right.
record Moved (o : Object) : Type 0 where
  new_well : is_ill (move_delivery o).0 ≡ false
  old_well : is_ill (move_delivery o).1 ≡ false
  kept :
      one (is_holding (move_delivery o).0.slot) + one (is_holding (move_delivery o).1.slot)
      ≡ one (is_holding o.slot)
  proper : (move_delivery o).2 ≡ false

move-Moved :
    (h : Bool) (k : Slot)
    → is_ill (record { has_executor = h; slot = k }) ≡ false
    → Moved (record { has_executor = h; slot = k })
unfolding move_delivery
move-Moved true raw e = absurd (ground (arith, e))
move-Moved true holding e = record { new_well = refl; old_well = refl; kept = refl; proper = refl }
move-Moved true moved_from e = absurd (ground (arith, e))
move-Moved false raw e = record { new_well = refl; old_well = refl; kept = refl; proper = refl }
move-Moved false holding e = absurd (ground (arith, e))
move-Moved false moved_from e = absurd (ground (arith, e))

record Called (current : Bool) (o : Object) : Type 0 where
  left_well : is_ill (call_delivery current o).0 ≡ false
  kept :
      one (is_holding (call_delivery current o).0.slot) + one (call_delivery current o).1
      ≡ one (is_holding o.slot)
  proper : (call_delivery current o).2 ≡ false

call-Called :
    (c h : Bool) (k : Slot)
    → is_ill (record { has_executor = h; slot = k }) ≡ false
    → Called c (record { has_executor = h; slot = k })
unfolding call_delivery
call-Called c true raw e = absurd (ground (arith, e))
call-Called true true holding e = record { left_well = refl; kept = refl; proper = refl }
call-Called false true holding e = record { left_well = refl; kept = refl; proper = refl }
call-Called c true moved_from e = absurd (ground (arith, e))
call-Called true false raw e = record { left_well = refl; kept = refl; proper = refl }
call-Called false false raw e = record { left_well = refl; kept = refl; proper = refl }
call-Called c false holding e = absurd (ground (arith, e))
call-Called c false moved_from e = absurd (ground (arith, e))

Step-Inv : {given : Bool} {s t : Traffic} → Step s t → Inv given s → Inv given t
unfolding move_in call_in destroy_in
Step-Inv {given} {s} (moves o before after e) v =
    let w = split is_ill o before after e in
    let m = move-Moved o.has_executor o.slot (one-none (is_ill o) _ (sym w ∙ v.well)) in
    record {
      well = omega (arith, v.well, w, ap one m.new_well, ap one m.old_well);
      in_one_place =
          omega (arith, v.in_one_place, split (λ x. is_holding x.slot) o before after e, m.kept);
      proper = ground (arith, v.proper, m.proper);
    }
Step-Inv {given} {s} (calls current o before after e) v =
    let w = split is_ill o before after e in
    let m = call-Called current o.has_executor o.slot (one-none (is_ill o) _ (sym w ∙ v.well)) in
    record {
      well = omega (arith, v.well, w, ap one m.left_well);
      in_one_place =
          omega (arith, v.in_one_place, split (λ x. is_holding x.slot) o before after e, m.kept);
      proper = ground (arith, v.proper, m.proper);
    }
Step-Inv {given} {s} (destroys o before after e) v = record {
  well = omega (arith, v.well, split is_ill o before after e);
  in_one_place = omega (arith, v.in_one_place, split (λ x. is_holding x.slot) o before after e);
  proper = v.proper;
}

Reach-Inv : {given : Bool} {s : Traffic} → Reach given s → Inv given s
Reach-Inv {given} start = made-Inv given
Reach-Inv (next r e) = Step-Inv e (Reach-Inv r)

-- However the deliveries of a request are moved, called and destroyed, the storage of an executor is never read or
-- destroyed while it is empty; and an executor that came with the request is in exactly one place, held by
-- one delivery, posted to and destroyed, or left behind by a destructor, while without one none of these is.
pub executor_in_one_place :
    {given : Bool} {s : Traffic}
    → Reach given s
    → (s.misused ≡ false) × (holders s.objects + s.posted + s.leaked ≡ one given)
executor_in_one_place r = let v = Reach-Inv r in (v.proper, v.in_one_place)
