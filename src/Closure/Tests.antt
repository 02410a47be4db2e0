-- ===== src/Closure/Tests.antt =====
-- A small anchored history: two corrections of one record, derivations that consume it, and the
-- theorems on it.
use ahl_core.Prelude.{
  ℕ, ◌≡◌, ◌↔◌, ◌⊎◌, refl, true, false, List, [], ◌∷◌, Bytes, Str, codes, str_eq, arith,
}
use ahl_core.Prelude.Order.{nat_ord, list_ord, pair_ord, cmp_list}
use ahl_core.Prelude.Sets.{contains, insert}
use ahl_core.Error.{ok}
use ahl_core.Json.Toy.{
  Tree, t_str, t_bool, t_obj, t_arr, t_end, t_item, f_end, f_item, field, items, fields, toy_json,
}
use ahl_core.Merkle.Toy.{toy}
use ahl_core.Bitemporal.{
  point, Scope, covers, intersects_ray, scope_from_payload, valid_time_from_payload, parse_rfc3339,
}
use ahl_core.Bitemporal.Toy.{clock}
use ahl_core.Tree.{field_str}
use ahl_core.Closure.{
  RecordRef, Edge, Closure, trigger_payload, trigger_seeds, edges, affected_set, payload_of,
  statement_type, record_ref, corrects, superseded, add_seeds, edges_from, envelope_edges,
  leaf_edges, input_edges, derivation_leaves, leaves_of, leaf_of, resolve_inputs, closure_of,
  covered,
}
use ahl_core.Closure.Graph.{consumer_map, add_consumer, consumers_of, offer, scan, walk}
use ahl_core.Closure.Affected.{Derived}
use ahl_core.Closure.Seeds.{Replaced, is_retraction, own_of, trigger_seeds_exact}
use ahl_core.Closure.Checkpoint.{affected_set_exact, affected_set_monotone}

abbrev same : Bytes → Bytes
same bytes = bytes

abbrev d : Str
d = codes "d"

abbrev rec_of : Str → Tree
rec_of name =
    t_obj (f_item (codes "dataset") (t_str d) (f_item (codes "record") (t_str name) f_end))

abbrev envelope : Tree → Tree
envelope payload = t_obj (f_item (codes "payload") payload f_end)

abbrev scope_at : Str → Tree
scope_at at =
    t_obj (
      f_item (codes "effective_from") (t_str at)
        (f_item (codes "retroactive") (t_bool false) f_end))

abbrev correction : Str → Str → Tree
correction record_name replacement = t_obj (
    f_item (codes "type") (t_str (codes "correction")) (
      f_item (codes "dataset") (t_str d) (
        f_item (codes "record") (t_str record_name) (
          f_item (codes "replacement") (t_str replacement)
            (f_item (codes "scope") (scope_at (3 ∷ [])) f_end)))))

abbrev derivation : Str → Str → Str → Tree
derivation at from to = t_obj (
    f_item (codes "type") (t_str (codes "derivation")) (
      f_item (codes "valid_time") (t_str at) (
        f_item (codes "inputs") (t_arr (t_item (rec_of from) t_end))
          (f_item (codes "outputs") (t_arr (t_item (rec_of to) t_end)) f_end))))

abbrev history : List Tree
history =
    envelope (correction (codes "x") (codes "y"))
    ∷ envelope (correction (codes "x") (codes "z"))
    ∷ envelope (derivation (3 ∷ []) (codes "y") (codes "u"))
    ∷ envelope (derivation (2 ∷ []) (codes "x") (codes "v"))
    ∷ envelope (derivation (4 ∷ []) (codes "u") (codes "w"))
    ∷ []

abbrev seeds_at_1 : List RecordRef
seeds_at_1 = (d, codes "x") ∷ (d, codes "y") ∷ []

seeds-run : trigger_seeds toy_json history 1 ≡ ok seeds_at_1
unfolding trigger_seeds trigger_payload payload_of statement_type str_eq field field_str add_seeds
    superseded corrects cmp_list insert
seeds-run = refl

affected-run :
    affected_set toy_json clock toy same same history [] 1 5
    ≡ ok record { seeds = seeds_at_1; affected = (d, codes "u") ∷ (d, codes "w") ∷ [] }
unfolding affected_set trigger_seeds trigger_payload payload_of statement_type str_eq field
    field_str add_seeds superseded corrects scope_from_payload valid_time_from_payload parse_rfc3339
    covers edges edges_from envelope_edges leaf_edges input_edges derivation_leaves leaves_of
    leaf_of resolve_inputs record_ref closure_of covered consumer_map add_consumer consumers_of
    offer scan walk fields items contains cmp_list insert intersects_ray
affected-run = refl

seeds-payload : trigger_payload toy_json history 1 ≡ ok (correction (codes "x") (codes "z"))
unfolding trigger_payload payload_of str_eq field
seeds-payload = refl

trigger_seeds_exact_example :
    (seeds : List RecordRef) × (trigger_seeds toy_json history 1 ≡ ok seeds)
    × ((x : RecordRef)
        → (contains seeds x ≡ true) ↔ (
            (x ≡ (d, codes "x"))
            ⊎ ((is_retraction toy_json (correction (codes "x") (codes "z")) ≡ false)
                × Replaced toy_json history 1 d
                    (codes "x")
                    (own_of toy_json (correction (codes "x") (codes "z")))
                    x)))
unfolding statement_type str_eq field field_str
trigger_seeds_exact_example =
    trigger_seeds_exact toy_json history 1 (correction (codes "x") (codes "z")) d (codes "x")
      seeds-payload refl refl refl

abbrev from_3 : Scope ℕ
from_3 = record { effective_from = 3; retroactive = false }

abbrev edge : ℕ → ℕ → Str → Str → Edge ℕ
edge entry_index at from to = record {
  entry_index = entry_index;
  valid_time = point at;
  input = (d, from);
  output = (d, to);
}

abbrev edges_of_5 : List (Edge ℕ)
edges_of_5 =
    edge 2 3 (codes "y") (codes "u")
    ∷ edge 3 2 (codes "x") (codes "v")
    ∷ edge 4 4 (codes "u") (codes "w")
    ∷ []

scope-run : scope_from_payload toy_json clock (correction (codes "x") (codes "z")) ≡ ok from_3
unfolding scope_from_payload parse_rfc3339 field str_eq
scope-run = refl

edges-run : edges toy_json clock toy same same history [] 5 ≡ ok edges_of_5
unfolding edges edges_from envelope_edges leaf_edges input_edges payload_of statement_type str_eq
    field field_str valid_time_from_payload parse_rfc3339 derivation_leaves leaves_of leaf_of
    resolve_inputs record_ref fields items
edges-run = refl

affected_set_exact_example :
    (c : Closure) × (affected_set toy_json clock toy same same history [] 1 5 ≡ ok c)
    × (c.seeds ≡ seeds_at_1)
    × ((x : RecordRef)
        → (contains c.affected x ≡ true)
          ↔ (Derived clock from_3 edges_of_5 seeds_at_1 x × (contains seeds_at_1 x ≡ false)))
affected_set_exact_example =
    affected_set_exact toy_json clock toy same same history [] 1 5
      (correction (codes "x") (codes "z")) from_3 seeds_at_1 edges_of_5 seeds-payload scope-run
      seeds-run edges-run

affected_set_monotone_example :
    (earlier : Closure) × (affected_set toy_json clock toy same same history [] 1 4 ≡ ok earlier)
    × (earlier.seeds ≡ seeds_at_1)
    × ((x : RecordRef)
        → contains earlier.affected x ≡ true
        → contains ((d, codes "u") ∷ (d, codes "w") ∷ []) x ≡ true)
affected_set_monotone_example =
    affected_set_monotone toy_json clock toy same same history [] 1 4 5
      (record { seeds = seeds_at_1; affected = (d, codes "u") ∷ (d, codes "w") ∷ [] }) (omega arith)
      affected-run
