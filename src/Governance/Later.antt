-- ===== src/Governance/Later.antt =====
-- What the governance state of src/receipt.rs says of an index, while the walk goes on behind it.
use ahl_core.Prelude.{
  ℕ, ◌≤◌, ◌≡◌, ◌↔◌, refl, sym, ap, ◌∙◌, Bool, true, false, ◌&&◌, Option, none, some, List, [], ◌∷◌,
  ◌++◌, Str, all, ltb, leb, leb→le, le→leb, if◌then◌else◌, arith,
}
use ahl_core.Prelude.Order.{nat_ord, list_ord}
use ahl_core.Prelude.Maps.{lookup}
use ahl_core.Error.{ok, err}
use ahl_core.Receipt.Outcome.{Outcome, unverifiable, invalid}
use ahl_core.Receipt.Failure.{ReceiptError, class}
use ahl_core.Receipt.Fields.{ReceiptResult}
use ahl_core.Governance.{
  KeyEvent, BoundKey, Governance, rfind, first, or_else, apply_event, apply_events, insert_snapshot,
  or_empty, snapshot_manifest_in, keys_from, producer_keys_at_in, manifest_for_binding, unbound,
}
use ahl_core.Governance.InForce.{rfind-cons}

abbrev is_behind : ℕ → KeyEvent → Bool
is_behind index event = ltb index event.entry_index

apply_events-behind :
    (after upto : ℕ) (keys : List (Str × BoundKey)) (later : List KeyEvent)
    → all (is_behind upto) later ≡ true
    → apply_events after upto keys later ≡ keys
unfolding apply_events
apply_events-behind after upto keys [] h = refl
apply_events-behind after upto keys (event ∷ rest) h =
    let outside : (ltb after event.entry_index && leb event.entry_index upto) ≡ false =
      ground arith in
    rw (apply_events, outside) (apply_events-behind after upto keys rest (ground arith))

apply_events-append :
    (after upto : ℕ) (keys : List (Str × BoundKey)) (events later : List KeyEvent)
    → all (is_behind upto) later ≡ true
    → apply_events after upto keys (events ++ later) ≡ apply_events after upto keys events
unfolding apply_events
apply_events-append after upto keys [] later h = apply_events-behind after upto keys later h
apply_events-append after upto keys (event ∷ rest) later h =
    apply_events-append after upto
      (if ltb after event.entry_index && leb event.entry_index upto
        then apply_event keys event
        else keys)
      rest later h

abbrev beyond : Option ℕ → Option ℕ → Bool
beyond (some stopped_at) (some index) = leb stopped_at index
beyond (some stopped_at) none = false
beyond none carried_at = false

class-unbound :
    (version_id : Str) (stopped carried : Option ℕ)
    → class (unbound version_id stopped carried)
      ≡ (if beyond stopped carried then unverifiable else invalid)
unfolding class
class-unbound version_id (some stopped_at) (some index) = ground arith
class-unbound version_id (some stopped_at) none = refl
class-unbound version_id none carried = refl

beyond_parts :
    (stopped carried : Option ℕ)
    → beyond stopped carried ≡ true
    → (s : ℕ) × (i : ℕ) × (stopped ≡ some s) × (carried ≡ some i) × (s ≤ i)
beyond_parts (some s) (some i) h = (s, i, refl, refl, leb→le s i h)
beyond_parts (some s) none h = cc
beyond_parts none carried h = cc

-- The class of a failure that is one of two.
one_of_two :
    (b : Bool) (c : Outcome) (P : Type 0)
    → c ≡ (if b then unverifiable else invalid)
    → (b ≡ true → P)
    → (P → b ≡ true)
    → ((c ≡ unverifiable) ↔ P) × ((c ≡ invalid) ↔ (P → ⊥))
one_of_two true c P e there back =
    ((λ _. there refl, λ _. e), (λ h p. clash (sym e ∙ h), λ n. absurd (n (there refl))))
  where
    clash : Path Outcome unverifiable invalid → ⊥
    clash h = cc
one_of_two false c P e there back = (
  (λ h. absurd (clash (sym e ∙ h)), λ p. absurd (differ (back p))),
  (λ _ p. differ (back p), λ _. e),
)
  where
    clash : Path Outcome invalid unverifiable → ⊥
    clash h = cc

    differ : false ≡ true → ⊥
    differ h = cc

module _ {Value : Type 0} where
  abbrev is_from : ℕ → ℕ × Value → Bool
  is_from index m = leb index m.0

  abbrev is_before : ℕ → ℕ × Value → Bool
  is_before index m = ltb m.0 index

  rfind-behind :
      (index : ℕ) (more : List (ℕ × Value))
      → all (is_from index) more ≡ true
      → rfind (is_before index) more ≡ none
  unfolding rfind
  rfind-behind index [] h = refl
  rfind-behind index (m ∷ more) h =
      rfind-cons (is_before index) m more false (ground arith)
      ∙ rw (rfind-behind index more (ground arith)) refl

  rfind-append :
      (index : ℕ) (manifests more : List (ℕ × Value))
      → all (is_from index) more ≡ true
      → rfind (is_before index) (manifests ++ more) ≡ rfind (is_before index) manifests
  unfolding rfind
  rfind-append index [] more h = rfind-behind index more h
  rfind-append index (m ∷ rest) more h =
      rfind-cons (is_before index) m (rest ++ more) (is_before index m) refl
      ∙ (rw (rfind-append index rest more h) refl
          ∙ sym (rfind-cons (is_before index) m rest (is_before index m) refl))

  snapshot-append :
      (manifests more : List (ℕ × Value)) (genesis : ℕ × Value) (index : ℕ)
      → first manifests ≡ some genesis
      → all (is_from index) more ≡ true
      → snapshot_manifest_in (manifests ++ more) index ≡ snapshot_manifest_in manifests index
  unfolding snapshot_manifest_in
  snapshot-append [] more genesis index g h = cc
  snapshot-append (m ∷ rest) more genesis index g h =
      ap (λ o. or_else o (some m)) (rfind-append index (m ∷ rest) more h)

  -- The producer keys in force at an index do not change while the walk goes on: manifests at or
  -- after the index and transitions after it have no part in them, once the chain has a first
  -- manifest.
  pub producer_keys_at_in-append :
      (producer_key_objects : Value → ReceiptResult (List (Str × Str)))
      (manifests more : List (ℕ × Value)) (events later : List KeyEvent) (genesis : ℕ × Value)
      (index : ℕ)
      → first manifests ≡ some genesis
      → all (λ m. leb index m.0) more ≡ true
      → all (λ e. ltb index e.entry_index) later ≡ true
      → producer_keys_at_in producer_key_objects (manifests ++ more) (events ++ later) index
        ≡ producer_keys_at_in producer_key_objects manifests events index
  unfolding producer_keys_at_in
  producer_keys_at_in-append producer_key_objects manifests more events later genesis index g h k =
      ap (keys_from producer_key_objects (events ++ later) index)
        (snapshot-append manifests more genesis index g h)
      ∙ by_snapshot (snapshot_manifest_in manifests index)
    where
      by_snapshot :
          (s : Option (ℕ × Value))
          → keys_from producer_key_objects (events ++ later) index s
            ≡ keys_from producer_key_objects events index s
      by_snapshot none = refl
      by_snapshot (some (at, manifest)) =
          apply_events-append at index
            (insert_snapshot at [] (or_empty (producer_key_objects manifest))) events later k

  -- The chain carries the version at or after the point where the walk stopped.
  pub record IsBeyond (g : Governance Value) (version_id : Str) : Type 0 where
    pub stopped_at : ℕ
    pub index : ℕ
    pub stopped : g.unestablished_from ≡ some stopped_at
    pub carried : lookup g.chain_index version_id ≡ some index
    pub reached : stopped_at ≤ index

  -- Where `manifest_for_binding` fails, the failure is `unverifiable` exactly when the chain carries
  -- the version at or after the point where the walk stopped, and `invalid` otherwise.
  pub manifest_for_binding-class :
      (g : Governance Value) (version_id : Str) (failure : ReceiptError)
      → manifest_for_binding g version_id ≡ err failure
      → ((class failure ≡ unverifiable) ↔ IsBeyond g version_id)
        × ((class failure ≡ invalid) ↔ (IsBeyond g version_id → ⊥))
  unfolding manifest_for_binding
  manifest_for_binding-class g version_id failure e =
      one_of_two (beyond g.unestablished_from (lookup g.chain_index version_id)) (class failure)
        (IsBeyond g version_id)
        (ap class (sym (by_lookup (lookup g.manifest_by_version_id version_id) e))
          ∙ class-unbound version_id g.unestablished_from (lookup g.chain_index version_id))
        (λ h.
          let (s, i, stopped, carried, reached) =
            beyond_parts g.unestablished_from (lookup g.chain_index version_id) h in
          record {
            stopped_at = s;
            index = i;
            stopped = stopped;
            carried = carried;
            reached = reached;
          })
        (λ b. rw (b.stopped, b.carried) (le→leb b.stopped_at b.index b.reached))
    where
      by_lookup :
          (o : Option (ℕ × Value))
          → Path
              (ReceiptResult (ℕ × Value))
              (elim o [
                | some found ↦ ok found
                | none ↦
                    err (unbound version_id g.unestablished_from (lookup g.chain_index version_id))
              ])
              (err failure)
          → unbound version_id g.unestablished_from (lookup g.chain_index version_id) ≡ failure
      by_lookup (some found) h = cc
      by_lookup none h = cc
