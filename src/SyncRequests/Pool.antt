-- ===== src/SyncRequests/Pool.antt =====
-- What the pool holds.
use slick_net.Prelude.{
  one, ℕ, ◌+◌, ◌≡◌, refl, Bool, true, false, [], ◌∷◌, Option, none, some, ◌==◌, if◌then◌else◌,
  arith,
}
use slick_net.SyncRequests.{Slots, acquire, release}

-- How often a context is parked.
abbrev pub parked : ℕ → Slots → ℕ
parked k [] = 0
parked k (none ∷ slots) = parked k slots
parked k (some c ∷ slots) = one (c == k) + parked k slots

-- How often it is the one that was taken.
abbrev pub taken : ℕ → Option ℕ → ℕ
taken k none = 0
taken k (some c) = one (c == k)

abbrev pub has_free : Slots → Bool
has_free [] = false
has_free (none ∷ slots) = true
has_free (some c ∷ slots) = has_free slots

-- What acquire returns, with the contexts that it leaves parked, are the contexts that were parked, each as often.
pub acquire-parked :
    (k : ℕ) (slots : Slots)
    → taken k (acquire slots).0 + parked k (acquire slots).1 ≡ parked k slots
unfolding acquire
acquire-parked k [] = omega arith
acquire-parked k (some c ∷ slots) = refl
acquire-parked k (none ∷ slots) = acquire-parked k slots

-- release parks its context once more if a slot is free; otherwise, and for every other context, the number parked
-- stays the same.
pub release-parked :
    (k c : ℕ) (slots : Slots)
    → parked k (release c slots) ≡ (if has_free slots then one (c == k) else 0) + parked k slots
unfolding release
release-parked k c [] = omega arith
release-parked k c (none ∷ slots) = refl
release-parked k c (some d ∷ slots) = omega (arith, release-parked k c slots)
