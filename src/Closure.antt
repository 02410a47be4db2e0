-- ===== src/Closure.antt =====
-- src/closure.rs: the revocation closure over an anchored statement graph. `TreeMaterial` is
-- an association list, of which only the lookup is used. The breadth-first loop stands in Graph; its
-- fuel is the number of seeds and edges, which is enough (Affected).
pub mod Graph
pub mod Walk
pub mod Reach
pub mod Ends
pub mod Hops
pub mod Seeds
pub mod Affected
pub mod Checkpoint
mod Tests
use ahl_core.Prelude.{
  ℕ, zero, suc, ◌+◌, Bool, true, false, not, ◌&&◌, ◌||◌, Option, none, some, List, [], ◌∷◌, ◌++◌,
  Str, Bytes, codes, str_eq, ltb, ◌==◌, if◌then◌else◌, filter, get_elem?, length, take,
}
use ahl_core.Prelude.Order.{Ord, nat_ord, list_ord, pair_ord}
use ahl_core.Prelude.Sets.{contains, insert, same}
use ahl_core.Error.{
  AhlError, text, num, lit, field, missing_tree_material, out_of_fuel, Result, ok, err, AhlResult,
  ◌>>=◌, ◌>>◌, ok_or, reject_if,
}
use ahl_core.Json.{Json}
use ahl_core.Merkle.{Hash, Merkle}
use ahl_core.Bitemporal.{
  Clock, ValidTime, Scope, valid_time_from_payload, scope_from_payload, covers,
}
use ahl_core.Closure.Graph.{consumer_map, start, walk}
use ahl_core.Tree.{field_str, str_member, ValidatedLeafSet, open_leaf_set}

abbrev pub RecordRef : Type 0
RecordRef = Str × Str

pub record Edge (Instant : Type 0) : Type 0 where
  pub entry_index : ℕ
  pub valid_time : ValidTime Instant
  pub input : RecordRef
  pub output : RecordRef

pub record Closure : Type 0 where
  pub seeds : List RecordRef
  pub affected : List RecordRef

module _ (clock : Clock) where
  -- The hops that the scope lets through.
  unfoldable pub covered :
      Scope clock.Instant → List (Edge clock.Instant) → List (RecordRef × RecordRef)
  covered scope [] = []
  covered scope (e ∷ rest) =
      let later = covered scope rest in
      if covers clock scope e.valid_time then (e.input, e.output) ∷ later else later

  -- The loop of `affected_set`, on the edges and the seeds.
  unfoldable pub closure_of :
      Scope clock.Instant → List RecordRef → List (Edge clock.Instant) → AhlResult Closure
  closure_of scope seeds es =
      walk (consumer_map [] (covered scope es)) (length seeds + length es) (start seeds) >>= λ s.
      ok record { seeds = seeds; affected = s.affected }

-- `value == Some(text)` on an optional text.
abbrev pub is_text : Option Str → Str → Bool
is_text none s = false
is_text (some t) s = str_eq t s

-- The replacement of an earlier correction of the record, where the trigger does not make it.
abbrev pub unless_own : Option Str → Option Str → Option Str
unless_own own none = none
unless_own own (some replacement) = if is_text own replacement then none else some replacement

abbrev pub add_seed : Str → Option Str → List RecordRef → List RecordRef
add_seed dataset none seeds = seeds
add_seed dataset (some replacement) seeds = insert (dataset, replacement) seeds

abbrev pub is_trigger : Option Str → Bool
is_trigger kind = is_text kind (codes "retraction") || is_text kind (codes "correction")

module _ (json : Json) where
  open json use {Value, get, as_str, as_u64, as_array, is_object, object, null}

  abbrev pub TreeMaterial : Type 0
  TreeMaterial = List (Str × List Value)

  -- `trees.get(root)`
  unfoldable pub tree_leaves : TreeMaterial → Str → Option (List Value)
  tree_leaves [] root = none
  tree_leaves ((key, leaves) ∷ rest) root =
      let later = tree_leaves rest root in if str_eq key root then some leaves else later

  unfoldable pub record_ref : Value → AhlResult RecordRef
  record_ref value = field_str json value (codes "dataset") >>= λ dataset.
      field_str json value (codes "record") >>= λ commitment. ok (dataset, commitment)

  -- `envelope.get("payload").filter(|p| p.is_object())`
  abbrev pub object_member : Option Value → Option Value
  object_member none = none
  object_member (some v) = if is_object v then some v else none

  unfoldable pub payload_of : Value → Option Value
  payload_of envelope = object_member (get envelope (codes "payload"))

  unfoldable pub statement_type : Value → Option Str
  statement_type payload = str_member json (get payload (codes "type"))

  abbrev pub u64_member : Option Value → Option ℕ
  u64_member none = none
  u64_member (some v) = as_u64 v

  abbrev pub array_member : Option Value → Option (List Value)
  array_member none = none
  array_member (some v) = as_array v

  unfoldable pub committed_count : Value → Str → AhlResult ℕ
  committed_count payload name = ok_or (u64_member (get payload name)) (field (lit name))

  -- A member of `json!`, where an absent one becomes null.
  abbrev pub or_null : Option Value → Value
  or_null none = null
  or_null (some v) = v

  -- One output of an unbatched derivation as a leaf.
  unfoldable pub leaf_of : Value → Value → Value
  leaf_of inputs output = object (
      (codes "dataset", or_null (get output (codes "dataset")))
      ∷ (codes "record", or_null (get output (codes "record")))
      ∷ (codes "inputs", inputs)
      ∷ [])

  unfoldable pub leaves_of : Value → List Value → List Value
  leaves_of inputs [] = []
  leaves_of inputs (output ∷ rest) = leaf_of inputs output ∷ leaves_of inputs rest

  module _ (clock : Clock) (m : Merkle) (sha256 : Bytes → Hash) (hex : Bytes → Str) where
    open clock use {Instant}

    unfoldable pub open_tree : TreeMaterial → Str → ℕ → AhlResult (ValidatedLeafSet json)
    open_tree trees root declared_count =
        ok_or (tree_leaves trees root) (missing_tree_material root) >>= λ leaves.
        open_leaf_set json m sha256 hex root declared_count leaves

    -- The leaves of a committed tree.
    unfoldable pub committed_leaves : TreeMaterial → Value → Str → Str → AhlResult (List Value)
    committed_leaves trees payload root count_name = committed_count payload count_name >>= λ count.
        open_tree trees root count >>= λ opened. ok opened.leaves

    unfoldable pub resolve_inputs : Value → TreeMaterial → AhlResult (List Value)
    resolve_inputs inputs trees = elim (as_array inputs) [
      | some array ↦ ok array
      | none ↦ field_str json inputs (codes "input_set_root") >>= λ root.
          committed_leaves trees inputs root (codes "input_set_count")
    ]

    unfoldable pub derivation_leaves : Value → TreeMaterial → AhlResult (List Value)
    derivation_leaves payload trees = elim (str_member json (get payload (codes "outputs_root"))) [
      | some root ↦ committed_leaves trees payload root (codes "outputs_count")
      | none ↦ ok_or (get payload (codes "inputs")) (field (lit (codes "inputs"))) >>= λ inputs.
          ok_or (array_member (get payload (codes "outputs"))) (field (lit (codes "outputs")))
          >>= λ outputs. ok (leaves_of inputs outputs)
    ]

    -- The edges from the inputs of one leaf.
    unfoldable pub input_edges :
        ℕ → ValidTime Instant → RecordRef → List Value → AhlResult (List (Edge Instant))
    input_edges entry_index valid_time output [] = ok []
    input_edges entry_index valid_time output (value ∷ rest) = record_ref value >>= λ input.
        input_edges entry_index valid_time output rest >>= λ later. ok (
          record {
            entry_index = entry_index;
            valid_time = valid_time;
            input = input;
            output = output;
          }
          ∷ later)

    unfoldable pub leaf_edges :
        TreeMaterial → ℕ → ValidTime Instant → List Value → AhlResult (List (Edge Instant))
    leaf_edges trees entry_index valid_time [] = ok []
    leaf_edges trees entry_index valid_time (leaf ∷ rest) = record_ref leaf >>= λ output.
        ok_or (get leaf (codes "inputs")) (field (lit (codes "inputs"))) >>= λ inputs.
        resolve_inputs inputs trees >>= λ values.
        input_edges entry_index valid_time output values >>= λ here.
        leaf_edges trees entry_index valid_time rest >>= λ later. ok (here ++ later)

    -- The edges of one envelope; only a derivation has any.
    unfoldable pub envelope_edges : TreeMaterial → ℕ → Value → AhlResult (List (Edge Instant))
    envelope_edges trees entry_index envelope = elim (payload_of envelope) [
      | none ↦ ok []
      | some payload ↦
          if is_text (statement_type payload) (codes "derivation")
          then (valid_time_from_payload json clock payload >>= λ valid_time.
              derivation_leaves payload trees >>= λ leaves.
              leaf_edges trees entry_index valid_time leaves)
          else ok []
    ]

    unfoldable pub edges_from : TreeMaterial → ℕ → List Value → AhlResult (List (Edge Instant))
    edges_from trees entry_index [] = ok []
    edges_from trees entry_index (envelope ∷ rest) =
        envelope_edges trees entry_index envelope >>= λ here.
        edges_from trees (suc entry_index) rest >>= λ later. ok (here ++ later)

    unfoldable pub edges : List Value → TreeMaterial → ℕ → AhlResult (List (Edge Instant))
    edges envelopes trees through_size = edges_from trees 0 (take through_size envelopes)

  abbrev pub payload_in : Option Value → Option Value
  payload_in none = none
  payload_in (some envelope) = payload_of envelope

  -- `envelopes.get(index).and_then(payload_of)`, or the error that names the index.
  unfoldable pub trigger_payload : List Value → ℕ → AhlResult Value
  trigger_payload envelopes index =
      ok_or (payload_in (get_elem? envelopes index))
        (field (text (codes "envelope at entry index ") ∷ num index ∷ []))

  -- A correction of this record.
  unfoldable pub corrects : Str → Str → Value → Bool
  corrects dataset commitment payload =
      is_text (statement_type payload) (codes "correction")
      && (is_text (str_member json (get payload (codes "dataset"))) dataset
          && is_text (str_member json (get payload (codes "record"))) commitment)

  unfoldable pub superseded : Str → Str → Option Str → Value → Option Str
  superseded dataset commitment own earlier =
      if corrects dataset commitment earlier
      then unless_own own (str_member json (get earlier (codes "replacement")))
      else none

  abbrev pub superseded_in : Str → Str → Option Str → Option Value → Option Str
  superseded_in dataset commitment own none = none
  superseded_in dataset commitment own (some payload) = superseded dataset commitment own payload

  -- The loop over the earlier envelopes.
  unfoldable pub add_seeds : Str → Str → Option Str → List Value → List RecordRef → List RecordRef
  add_seeds dataset commitment own [] seeds = seeds
  add_seeds dataset commitment own (envelope ∷ rest) seeds =
      add_seeds dataset commitment own rest
        (add_seed dataset (superseded_in dataset commitment own (payload_of envelope)) seeds)

  unfoldable pub trigger_seeds : List Value → ℕ → AhlResult (List RecordRef)
  trigger_seeds envelopes trigger_index = trigger_payload envelopes trigger_index >>= λ payload.
      reject_if (not (is_trigger (statement_type payload)))
        (field (text (codes "trigger type at entry index ") ∷ num trigger_index ∷ []))
      >> (field_str json payload (codes "dataset") >>= λ dataset.
          field_str json payload (codes "record") >>= λ commitment. ok (
            if is_text (statement_type payload) (codes "retraction")
            then (dataset, commitment) ∷ []
            else add_seeds dataset commitment (str_member json (get payload (codes "replacement")))
                (take trigger_index envelopes) ((dataset, commitment) ∷ [])))

  module _ (clock : Clock) where
    unfoldable pub affected_set :
        (m : Merkle) (sha256 : Bytes → Hash) (hex : Bytes → Str)
        → List Value
        → TreeMaterial
        → ℕ
        → ℕ
        → AhlResult Closure
    affected_set m sha256 hex envelopes trees trigger_index through_size =
        trigger_payload envelopes trigger_index >>= λ payload.
        scope_from_payload json clock payload >>= λ scope.
        trigger_seeds envelopes trigger_index >>= λ seeds.
        edges clock m sha256 hex envelopes trees through_size >>= λ es.
        closure_of clock scope seeds es
