-- ===== src/Governance.antt =====
-- The governance state of a receipt (src/receipt.rs, "Governance chain"): the manifests and key
-- transitions that the walk has established, and what is in force at an entry index.
pub mod Schema
pub mod InForce
pub mod Snapshot
pub mod Later
mod Tests
use ahl_core.Prelude.{
  ℕ, ◌-◌, Bool, true, false, ◌&&◌, Option, none, some, List, [], ◌∷◌, Str, codes, ltb, leb, ◌==◌,
  if◌then◌else◌, map,
}
use ahl_core.Prelude.Order.{nat_ord, list_ord}
use ahl_core.Prelude.Maps.{lookup, put, remove}
use ahl_core.Error.{text, num, Result, ok, err}
use ahl_core.Json.{Json}
use ahl_core.Receipt.Failure.{
  ReceiptError, governance_chain_invalid, governance_rotation_unverifiable,
}
use ahl_core.Receipt.Fields.{ReceiptResult}

pub record KeyEvent : Type 0 where
  pub entry_index : ℕ
  pub key_id : Str
  pub pubkey : Str
  pub added : Bool

pub record BoundKey : Type 0 where
  pub pubkey : Str
  pub bound_at : ℕ

pub record Governance (Value : Type 0) : Type 0 where
  pub mode : Str
  pub manifests : List (ℕ × Value)
  pub events : List KeyEvent
  pub manifest_by_version_id : List (Str × (ℕ × Value))
  pub chain_index : List (Str × ℕ)
  pub walked_indexes : List ℕ
  pub void_chain : List (ℕ × Value)
  pub chain_indexes : List ℕ
  pub unestablished_from : Option ℕ

-- `iter().rfind(p)`
unfoldable pub rfind {ℓ} : {A : Type ℓ} → (A → Bool) → List A → Option A
rfind p [] = none
rfind p (x ∷ xs) =
    let later = rfind p xs in elim later [ some y ↦ some y | none ↦ if p x then some x else none ]

abbrev pub first {ℓ} : {A : Type ℓ} → List A → Option A
first [] = none
first (x ∷ xs) = some x

abbrev pub or_else {ℓ} : {A : Type ℓ} → Option A → Option A → Option A
or_else (some a) other = some a
or_else none other = other

-- Whether a walk that stopped there established this index.
abbrev pub is_below : Option ℕ → ℕ → Bool
is_below (some stopped_at) index = ltb index stopped_at
is_below none index = true

-- One transition of the key set.
unfoldable pub apply_event : List (Str × BoundKey) → KeyEvent → List (Str × BoundKey)
apply_event keys event =
    if event.added
    then put event.key_id (record { pubkey = event.pubkey; bound_at = event.entry_index }) keys
    else remove event.key_id keys

-- The transitions of the window, in their order.
unfoldable pub apply_events : ℕ → ℕ → List (Str × BoundKey) → List KeyEvent → List (Str × BoundKey)
apply_events after upto keys [] = keys
apply_events after upto keys (event ∷ rest) =
    apply_events after upto
      (if ltb after event.entry_index && leb event.entry_index upto
        then apply_event keys event
        else keys)
      rest

unfoldable pub insert_snapshot :
    ℕ → List (Str × BoundKey) → List (Str × Str) → List (Str × BoundKey)
insert_snapshot index keys [] = keys
insert_snapshot index keys ((key_id, pubkey) ∷ rest) =
    insert_snapshot index (put key_id (record { pubkey = pubkey; bound_at = index }) keys) rest

-- `unwrap_or_default()`
abbrev pub or_empty {ℓ} : {A : Type ℓ} → ReceiptResult (List A) → List A
or_empty (ok xs) = xs
or_empty (err _) = []

abbrev pub not_carried : Str → ReceiptError
not_carried version_id = governance_chain_invalid (
    text (codes "manifest version `")
    ∷ text version_id
    ∷ text (
        codes
          "` named by the subject statement's `manifest` binding is not in the carried governance chain")
    ∷ [])

-- The failure of `manifest_for_binding`: where the walk stopped, and where the chain carries the
-- version.
abbrev pub unbound : Str → Option ℕ → Option ℕ → ReceiptError
unbound version_id (some stopped_at) (some index) =
    if leb stopped_at index
    then governance_rotation_unverifiable stopped_at
    else not_carried version_id
unbound version_id (some stopped_at) none = not_carried version_id
unbound version_id none carried_at = not_carried version_id

module _ {Value : Type 0} where
  unfoldable pub snapshot_manifest_in : List (ℕ × Value) → ℕ → Option (ℕ × Value)
  snapshot_manifest_in manifests index =
      or_else (rfind (λ m. ltb m.0 index) manifests) (first manifests)

  -- The key of the first entry of the map that stands at this index.
  unfoldable pub version_at : List (Str × (ℕ × Value)) → ℕ → Option Str
  version_at [] index = none
  version_at ((version_id, (at, _)) ∷ rest) index =
      let later = version_at rest index in if at == index then some version_id else later

  abbrev pub version_of : List (Str × (ℕ × Value)) → Option (ℕ × Value) → Option Str
  version_of by_version none = none
  version_of by_version (some (active_index, _)) = version_at by_version active_index

  unfoldable pub active_manifest_version_id :
      List (ℕ × Value) → List (Str × (ℕ × Value)) → ℕ → Option Str
  active_manifest_version_id manifests by_version index =
      version_of by_version (snapshot_manifest_in manifests index)

  -- `producer_key_objects` (Schema) reads the key objects of a manifest.
  module _ (producer_key_objects : Value → ReceiptResult (List (Str × Str))) where
    abbrev pub keys_from : List KeyEvent → ℕ → Option (ℕ × Value) → List (Str × BoundKey)
    keys_from events index none = []
    keys_from events index (some (snapshot_index, manifest)) =
        apply_events snapshot_index index
          (insert_snapshot snapshot_index [] (or_empty (producer_key_objects manifest))) events

    unfoldable pub producer_keys_at_in :
        List (ℕ × Value) → List KeyEvent → ℕ → List (Str × BoundKey)
    producer_keys_at_in manifests events index =
        keys_from events index (snapshot_manifest_in manifests index)

    unfoldable pub producer_keys_at : Governance Value → ℕ → List (Str × BoundKey)
    producer_keys_at g index = producer_keys_at_in g.manifests g.events index

    unfoldable pub producer_pubkeys_at : Governance Value → ℕ → List (Str × Str)
    producer_pubkeys_at g index = map (λ kv. (kv.0, kv.1.pubkey)) (producer_keys_at g index)

  unfoldable pub established_at : Governance Value → ℕ → Bool
  established_at g index = is_below g.unestablished_from index

  -- `saturating_sub` is the subtraction of ℕ.
  unfoldable pub established_for_tree_size : Governance Value → ℕ → Bool
  established_for_tree_size g tree_size = established_at g (tree_size - 1)

  unfoldable pub active_for : Governance Value → ℕ → ReceiptResult (ℕ × Value)
  active_for g tree_size = elim (rfind (λ m. ltb m.0 tree_size) g.manifests) [
    | some found ↦ ok found
    | none ↦ err (
        governance_chain_invalid (
          text (codes "no manifest version is active for a checkpoint of size ")
          ∷ num tree_size
          ∷ []))
  ]

  unfoldable pub manifest_for_binding : Governance Value → Str → ReceiptResult (ℕ × Value)
  manifest_for_binding g version_id = elim (lookup g.manifest_by_version_id version_id) [
    | some found ↦ ok found
    | none ↦ err (unbound version_id g.unestablished_from (lookup g.chain_index version_id))
  ]
