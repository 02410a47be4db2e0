-- ===== src/Closure/Graph.antt =====
-- The breadth-first loop of `affected_set` in src/closure.rs, over any ordered type of records. The
-- map from a record to its consumers is an association list, of which only the lookup is used.
use ahl_core.Prelude.{ℕ, zero, suc, List, [], ◌∷◌, ◌++◌, if◌then◌else◌}
use ahl_core.Prelude.Order.{Ord}
use ahl_core.Prelude.Sets.{contains, insert, same}
use ahl_core.Error.{out_of_fuel, ok, err, AhlResult}

-- The outputs that each record's consumers produce.
abbrev pub Consumers : Type 0 → Type 0
Consumers A = List (A × List A)

-- The variables of the loop.
pub record Search (A : Type 0) : Type 0 where
  pub affected : List A
  pub seen : List A
  pub queue : List A

abbrev pub start : {A : Type 0} → List A → Search A
start seeds = record { affected = []; seen = seeds; queue = seeds }

module _ {A : Type 0} ⦃o : Ord A⦄ where
  -- `consumers.entry(input).or_default().insert(output)`
  unfoldable pub add_consumer : A → A → Consumers A → Consumers A
  add_consumer input output [] = (input, insert output []) ∷ []
  add_consumer input output ((key, outputs) ∷ rest) =
      let later = (key, outputs) ∷ add_consumer input output rest in
      if same input key then (key, insert output outputs) ∷ rest else later

  -- `consumers.get(record)`, where a record that is not there has no consumers.
  unfoldable pub consumers_of : Consumers A → A → List A
  consumers_of [] r = []
  consumers_of ((key, outputs) ∷ rest) r =
      let later = consumers_of rest r in if same r key then outputs else later

  unfoldable pub consumer_map : Consumers A → List (A × A) → Consumers A
  consumer_map acc [] = acc
  consumer_map acc ((input, output) ∷ rest) = consumer_map (add_consumer input output acc) rest

  -- The inner loop's body: `if seen.insert(record) { ... }`.
  unfoldable pub offer : Search A → A → Search A
  offer s r = if contains s.seen r then s else record {
    affected = insert r s.affected;
    seen = insert r s.seen;
    queue = s.queue ++ (r ∷ []);
  }

  unfoldable pub scan : Search A → List A → Search A
  scan s [] = s
  scan s (r ∷ rest) = scan (offer s r) rest

  unfoldable pub walk : Consumers A → ℕ → Search A → AhlResult (Search A)
  walk consumers zero s = elim s.queue [ [] ↦ ok s | _ ∷ _ ↦ err out_of_fuel ]
  walk consumers (suc fuel) s = elim s.queue [
    | [] ↦ ok s
    | current ∷ rest ↦
        walk consumers fuel (scan (record s { queue = rest }) (consumers_of consumers current))
  ]
