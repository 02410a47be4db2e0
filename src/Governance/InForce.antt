-- ===== src/Governance/InForce.antt =====
-- The producer key that is in force at an entry index (src/receipt.rs), as the last statement about
-- it that counts.
use ahl_core.Prelude.{
  ℕ, ◌≡◌, refl, sym, ap, ◌∙◌, Bool, true, false, ◌&&◌, Option, none, some, List, [], ◌∷◌, Str, ltb,
  leb, if◌then◌else◌, Bool-cases, inl, inr,
}
use ahl_core.Prelude.Order.{nat_ord, list_ord}
use ahl_core.Prelude.Sets.{same}
use ahl_core.Prelude.Maps.{lookup, put, lookup-put, lookup-remove}
use ahl_core.Receipt.Fields.{ReceiptResult}
use ahl_core.Governance.{
  KeyEvent, BoundKey, rfind, apply_event, apply_events, insert_snapshot, or_empty,
  snapshot_manifest_in, keys_from, producer_keys_at_in,
}

-- A transition of this key after one index and up to another.
abbrev pub concerns : ℕ → ℕ → Str → KeyEvent → Bool
concerns after upto key_id event =
    (ltb after event.entry_index && leb event.entry_index upto) && same key_id event.key_id

abbrev bound_by : KeyEvent → Option BoundKey
bound_by event =
    if event.added
    then some (record { pubkey = event.pubkey; bound_at = event.entry_index })
    else none

-- The last transition decides, and where there is none the snapshot.
abbrev pub settled_by : Option KeyEvent → Option BoundKey → Option BoundKey
settled_by none base = base
settled_by (some event) base = bound_by event

abbrev pub listed_at : ℕ → Option (Str × Str) → Option BoundKey
listed_at index none = none
listed_at index (some (_, pubkey)) = some (record { pubkey = pubkey; bound_at = index })

abbrev or_base : Option BoundKey → Option BoundKey → Option BoundKey
or_base (some b) base = some b
or_base none base = base

lookup-apply_event :
    (keys : List (Str × BoundKey)) (event : KeyEvent) (k : Str)
    → lookup (apply_event keys event) k
      ≡ (if same k event.key_id then bound_by event else lookup keys k)
unfolding apply_event
lookup-apply_event keys event k = elim (Bool-cases event.added) [
  | inl yes_added ↦ rw yes_added (
      lookup-put event.key_id (record { pubkey = event.pubkey; bound_at = event.entry_index }) keys
        k)
  | inr removed ↦ rw removed (lookup-remove event.key_id keys k)
]

pub rfind-cons {ℓ} :
    {A : Type ℓ} (p : A → Bool) (x : A) (xs : List A) (b : Bool)
    → p x ≡ b
    → rfind p (x ∷ xs) ≡ (elim (rfind p xs) [ some y ↦ some y | none ↦ if b then some x else none ])
unfolding rfind
rfind-cons p x xs b e =
    ap (λ c. elim (rfind p xs) [ some y ↦ some y | none ↦ if c then some x else none ]) e

lookup-apply_events :
    (after upto : ℕ) (keys : List (Str × BoundKey)) (events : List KeyEvent) (k : Str)
    → lookup (apply_events after upto keys events) k
      ≡ settled_by (rfind (concerns after upto k) events) (lookup keys k)
unfolding apply_events rfind
lookup-apply_events after upto keys [] k = refl
lookup-apply_events after upto keys (event ∷ rest) k =
    elim (Bool-cases (ltb after event.entry_index && leb event.entry_index upto)) [
      | inl within ↦
          rw (apply_events, within) (lookup-apply_events after upto (apply_event keys event) rest k)
          ∙ (ap (settled_by (rfind (concerns after upto k) rest)) (lookup-apply_event keys event k)
              ∙ (later_first (rfind (concerns after upto k) rest) (same k event.key_id) event
                    (lookup keys k)
                  ∙ ap (λ o. settled_by o (lookup keys k))
                      (sym (
                        rfind-cons (concerns after upto k) event rest (same k event.key_id)
                          (ap (λ b. b && same k event.key_id) within)))))
      | inr outside ↦
          rw (apply_events, outside) (lookup-apply_events after upto keys rest k)
          ∙ (skipped (rfind (concerns after upto k) rest) (lookup keys k)
              ∙ ap (λ o. settled_by o (lookup keys k))
                  (sym (
                    rfind-cons (concerns after upto k) event rest false
                      (ap (λ b. b && same k event.key_id) outside))))
    ]
  where
    later_first :
        (found : Option KeyEvent) (mine : Bool) (e : KeyEvent) (base : Option BoundKey)
        → settled_by found (if mine then bound_by e else base)
          ≡ settled_by (elim found [ some y ↦ some y | none ↦ if mine then some e else none ]) base
    later_first none true e base = refl
    later_first none false e base = refl
    later_first (some y) mine e base = refl

    skipped :
        (found : Option KeyEvent) (base : Option BoundKey)
        → settled_by found base ≡ settled_by (elim found [ some y ↦ some y | none ↦ none ]) base
    skipped none base = refl
    skipped (some y) base = refl

lookup-insert_snapshot :
    (index : ℕ) (keys : List (Str × BoundKey)) (listed : List (Str × Str)) (k : Str)
    → lookup (insert_snapshot index keys listed) k
      ≡ or_base (listed_at index (rfind (λ kv. same k kv.0) listed)) (lookup keys k)
unfolding insert_snapshot rfind
lookup-insert_snapshot index keys [] k = refl
lookup-insert_snapshot index keys ((key_id, pubkey) ∷ rest) k =
    lookup-insert_snapshot index (put key_id (record { pubkey = pubkey; bound_at = index }) keys)
      rest k
    ∙ rw (lookup-put key_id (record { pubkey = pubkey; bound_at = index }) keys k)
        (later_first (rfind (λ kv. same k kv.0) rest) (same k key_id) (lookup keys k))
  where
    later_first :
        (found : Option (Str × Str)) (mine : Bool) (base : Option BoundKey)
        → or_base
            (listed_at index found)
            (if mine then some (record { pubkey = pubkey; bound_at = index }) else base)
          ≡ or_base
              (listed_at index (elim found [
                | some y ↦ some y
                | none ↦ if mine then some (key_id, pubkey) else none
              ]))
              base
    later_first none true base = refl
    later_first none false base = refl
    later_first (some y) mine base = refl

module _ {Value : Type 0} (producer_key_objects : Value → ReceiptResult (List (Str × Str))) where
  -- A key under the manifest in force: the last transition after the manifest and up to the index,
  -- and where there is none the manifest's own list.
  abbrev pub under : List KeyEvent → ℕ → Str → Option (ℕ × Value) → Option BoundKey
  under events index key_id none = none
  under events index key_id (some (snapshot_index, manifest)) =
      settled_by (rfind (concerns snapshot_index index key_id) events) (
        listed_at snapshot_index
          (rfind (λ kv. same key_id kv.0) (or_empty (producer_key_objects manifest))))

  -- The key that `producer_keys_at_in` holds under an id at an entry index is the one that the last
  -- transition of that id after the manifest in force and up to the index bound, none where that
  -- transition removed it, and where there is no such transition the last one that the manifest
  -- itself lists: a key that neither names is gone, whatever an earlier manifest said.
  pub producer_keys_at_in-last :
      (manifests : List (ℕ × Value)) (events : List KeyEvent) (index : ℕ) (key_id : Str)
      → lookup (producer_keys_at_in producer_key_objects manifests events index) key_id
        ≡ under events index key_id (snapshot_manifest_in manifests index)
  unfolding producer_keys_at_in lookup
  producer_keys_at_in-last manifests events index key_id =
      by_snapshot (snapshot_manifest_in manifests index)
    where
      strip_base : (o : Option BoundKey) → or_base o none ≡ o
      strip_base none = refl
      strip_base (some b) = refl

      by_snapshot :
          (s : Option (ℕ × Value))
          → lookup (keys_from producer_key_objects events index s) key_id
            ≡ under events index key_id s
      by_snapshot none = refl
      by_snapshot (some (at, manifest)) =
          lookup-apply_events at index
            (insert_snapshot at [] (or_empty (producer_key_objects manifest))) events key_id
          ∙ ap (settled_by (rfind (concerns at index key_id) events)) (
              lookup-insert_snapshot at [] (or_empty (producer_key_objects manifest)) key_id
              ∙ strip_base (
                  listed_at at
                    (rfind (λ kv. same key_id kv.0) (or_empty (producer_key_objects manifest)))))
