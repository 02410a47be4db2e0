-- ===== src/Bitemporal/Ray.antt =====
-- The trigger scope of src/bitemporal.rs as sets of instants.
use ahl_core.Prelude.{Bool, true, false, ◌||◌, none, some, ◌≡◌, ◌⊎◌, ◌↔◌, inl, inr, refl, arith}
use ahl_core.Bitemporal.{Clock, IsTotal, ValidTime, point, interval, Scope, intersects_ray, covers}

or_cases : (a b : Bool) → a || b ≡ true → (a ≡ true) ⊎ (b ≡ true)
or_cases true b e = inl refl
or_cases false b e = inr e

or_true : (a : Bool) → a || true ≡ true
or_true a = ground arith

module _ (clock : Clock) (total : IsTotal clock) where
  open clock use {Instant, le}
  open total use {le_refl, le_trans, le_total}

  -- The instants of a valid time.
  abbrev pub At : ValidTime Instant → Instant → Type 0
  At (point at) t = (le at t ≡ true) × (le t at ≡ true)
  At (interval from none) t = le from t ≡ true
  At (interval from (some end)) t = (le from t ≡ true) × (le t end ≡ true)

  -- An interval does not end before it begins.
  abbrev pub IsOrdered : ValidTime Instant → Type 0
  IsOrdered (point at) = Unit
  IsOrdered (interval from none) = Unit
  IsOrdered (interval from (some end)) = le from end ≡ true

  abbrev pub Meets : ValidTime Instant → Instant → Type 0
  Meets vt from = (t : Instant) × At vt t × (le from t ≡ true)

  later : (a b : Instant) → (t : Instant) × (le a t ≡ true) × (le b t ≡ true)
  later a b = elim (le_total a b) [ inl up ↦ (b, up, le_refl b) | inr down ↦ (a, le_refl a, down) ]

  meets :
      (vt : ValidTime Instant) (from : Instant)
      → IsOrdered vt
      → intersects_ray clock vt from ≡ true
      → Meets vt from
  unfolding intersects_ray
  meets (point at) from ordered e = (at, (le_refl at, le_refl at), e)
  meets (interval a none) from ordered e = later a from
  meets (interval a (some end)) from ordered e = (end, (ordered, le_refl end), e)

  met :
      (vt : ValidTime Instant) (from : Instant)
      → Meets vt from
      → intersects_ray clock vt from ≡ true
  unfolding intersects_ray
  met (point at) from (t, inside, e) = le_trans from t at e inside.1
  met (interval a none) from (t, inside, e) = refl
  met (interval a (some end)) from (t, inside, e) = le_trans from t end e inside.1

  -- A scope covers a valid time, whose interval does not end before it begins, exactly when the
  -- trigger is retroactive or some instant of the valid time is at or after `effective_from`.
  pub covers_iff :
      (scope : Scope Instant) (vt : ValidTime Instant)
      → IsOrdered vt
      → (covers clock scope vt ≡ true)
        ↔ ((scope.retroactive ≡ true) ⊎ Meets vt scope.effective_from)
  unfolding covers
  covers_iff scope vt ordered = (
    λ e. elim (or_cases scope.retroactive _ e) [
      | inl back ↦ inl back
      | inr ray ↦ inr (meets vt scope.effective_from ordered ray)
    ],
    λ why. elim why [
      | inl back ↦ rw back refl
      | inr ray ↦ rw (met vt scope.effective_from ray) (or_true scope.retroactive)
    ],
  )
