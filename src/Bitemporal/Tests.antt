-- ===== src/Bitemporal/Tests.antt =====
-- Runs of src/bitemporal.rs on a clock of numbers, and the theorem at a concrete input.
use ahl_core.Prelude.{
  ℕ, true, false, none, some, [], ◌∷◌, codes, str_eq, leb, ◌≡◌, ◌⊎◌, ◌↔◌, refl, arith,
}
use ahl_core.Error.{ok}
use ahl_core.Json.Toy.{Tree, t_null, t_str, t_obj, f_end, f_item, field, toy_json}
use ahl_core.Bitemporal.{
  IsTotal, ValidTime, interval, Scope, valid_time_from_payload, interval_of, upper_end,
  parse_rfc3339, covers,
}
use ahl_core.Bitemporal.Toy.{clock}
use ahl_core.Bitemporal.Ray.{covers_iff}

leb-total : (a b : ℕ) → (leb a b ≡ true) ⊎ (leb b a ≡ true)
leb-total a b = ground arith

clock-IsTotal : IsTotal clock
clock-IsTotal = record {
  le_refl = λ a. ground arith;
  le_trans = λ a b c p q. ground arith;
  le_total = leb-total;
}

abbrev ends_early : ValidTime ℕ
ends_early = interval 3 (some 8)

abbrev from_nine : Scope ℕ
from_nine = record { effective_from = 9; retroactive = false }

covers_iff_example : (covers clock from_nine ends_early ≡ true) ↔ (
    (from_nine.retroactive ≡ true)
    ⊎ ((t : ℕ) × ((leb 3 t ≡ true) × (leb t 8 ≡ true)) × (leb 9 t ≡ true)))
covers_iff_example = covers_iff clock clock-IsTotal from_nine ends_early refl

abbrev open_payload : Tree
open_payload = t_obj (
    f_item (codes "valid_time")
      (t_obj (f_item (codes "from") (t_str (3 ∷ [])) (f_item (codes "to") t_null f_end))) f_end)

reads-open : valid_time_from_payload toy_json clock open_payload ≡ ok (interval 3 none)
unfolding valid_time_from_payload interval_of upper_end parse_rfc3339 field str_eq
reads-open = refl
