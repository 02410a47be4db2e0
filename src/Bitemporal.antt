-- ===== src/Bitemporal.antt =====
-- src/bitemporal.rs: valid time and trigger scope.
pub mod Ray
pub mod Toy
mod Tests
use ahl_core.Prelude.{
  Bool, true, false, ◌||◌, Option, none, some, Str, codes, List, [], ◌∷◌, ◌≡◌, ◌⊎◌, if◌then◌else◌,
}
use ahl_core.Error.{
  AhlError, timestamp, field, lit, Result, ok, err, AhlResult, ◌>>=◌, ok_or, map_err,
}
use ahl_core.Json.{Json}

-- What the source takes from the crate time: an instant, the order of instants, and the parser of
-- RFC 3339, whose error is the text that it renders to.
pub record Clock : Type 1 where
  pub Instant : Type 0
  -- `a <= b`
  pub le : Instant → Instant → Bool
  pub parse : Str → Result Str Instant

-- The order is total: instants are points of one line.
pub record IsTotal (clock : Clock) : Type 0 where
  pub le_refl : (a : clock.Instant) → clock.le a a ≡ true
  pub le_trans :
      (a b c : clock.Instant) → clock.le a b ≡ true → clock.le b c ≡ true → clock.le a c ≡ true
  pub le_total : (a b : clock.Instant) → (clock.le a b ≡ true) ⊎ (clock.le b a ≡ true)

pub data ValidTime (Instant : Type 0) : Type 0 where
  point : Instant → ValidTime Instant
  interval : Instant → Option Instant → ValidTime Instant

pub record Scope (Instant : Type 0) : Type 0 where
  pub effective_from : Instant
  pub retroactive : Bool

module _ (json : Json) (clock : Clock) where
  open json use {Value, get, as_str, as_bool, is_object, is_null}
  open clock use {Instant, le, parse}

  unfoldable pub parse_rfc3339 : Str → Str → AhlResult Instant
  parse_rfc3339 name value = map_err (λ source. timestamp name value source) (parse value)

  -- A member that must be there: `value.get(key).ok_or_else(...)`, then `and_then(Value::as_str)`.
  abbrev pub member_of : Value → Str → Str → AhlResult Value
  member_of value key name = ok_or (get value key) (field (lit name))

  abbrev pub str_of : Value → Str → AhlResult Str
  str_of value name = ok_or (as_str value) (field (lit name))

  abbrev pub bool_of : Value → Str → AhlResult Bool
  bool_of value name = ok_or (as_bool value) (field (lit name))

  -- `to`: an explicit null is the open interval.
  unfoldable pub upper_end : Value → AhlResult (Option Instant)
  upper_end to =
      if is_null to
      then ok none
      else (str_of to (codes "valid_time.to") >>= λ end.
          parse_rfc3339 (codes "valid_time.to") end >>= λ at. ok (some at))

  unfoldable pub interval_of : Value → AhlResult (ValidTime Instant)
  interval_of value =
      if is_object value
      then (member_of value (codes "from") (codes "valid_time.from") >>= λ lower.
          str_of lower (codes "valid_time.from") >>= λ from.
          member_of value (codes "to") (codes "valid_time.to") >>= λ upper.
          upper_end upper >>= λ to.
          parse_rfc3339 (codes "valid_time.from") from >>= λ at. ok (interval at to))
      else err (field (lit (codes "valid_time")))

  -- `ValidTime::from_payload`
  unfoldable pub valid_time_from_payload : Value → AhlResult (ValidTime Instant)
  valid_time_from_payload payload =
      member_of payload (codes "valid_time") (codes "valid_time") >>= λ value. elim (as_str value) [
        | some text ↦ parse_rfc3339 (codes "valid_time") text >>= λ at. ok (point at)
        | none ↦ interval_of value
      ]

  -- `Scope::from_payload`
  unfoldable pub scope_from_payload : Value → AhlResult (Scope Instant)
  scope_from_payload payload = member_of payload (codes "scope") (codes "scope") >>= λ scope.
      member_of scope (codes "effective_from") (codes "scope.effective_from") >>= λ lower.
      str_of lower (codes "scope.effective_from") >>= λ effective_from.
      member_of scope (codes "retroactive") (codes "scope.retroactive") >>= λ flag.
      bool_of flag (codes "scope.retroactive") >>= λ retroactive.
      parse_rfc3339 (codes "scope.effective_from") effective_from >>= λ at.
      ok record { effective_from = at; retroactive = retroactive }

module _ (clock : Clock) where
  open clock use {Instant, le}

  -- `ValidTime::intersects_ray`
  unfoldable pub intersects_ray : ValidTime Instant → Instant → Bool
  intersects_ray (point at) effective_from = le effective_from at
  intersects_ray (interval from none) effective_from = true
  intersects_ray (interval from (some end)) effective_from = le effective_from end

  -- `Scope::covers`
  unfoldable pub covers : Scope Instant → ValidTime Instant → Bool
  covers scope valid_time = scope.retroactive || intersects_ray valid_time scope.effective_from
