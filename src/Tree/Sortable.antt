-- ===== src/Tree/Sortable.antt =====
-- What `record_sorted` (src/lib.rs) returns is what `ValidatedLeafSet::open` (src/tree.rs) accepts.
use ahl_core.Prelude.{
  ℕ, ◌≡◌, refl, sym, ap, ap₂, ◌∙◌, Bool, true, false, not, ◌&&◌, none, some, List, [], ◌∷◌, Bytes,
  Str, str_eq, str_eq_refl, all, filter, map, length, Ordering, arith,
}
use ahl_core.Prelude.Order.{Ord, nat_ord, list_ord, sort_by}
use ahl_core.Prelude.Sorted.{is_sorted, is_gt, all-sort_by, sorted-sort_by, length-filter-sort_by}
use ahl_core.Error.{
  duplicate_record, ok, ◌>>◌, reject_if, then-eq-ok, reject_if-eq-ok, ok-injective,
}
use ahl_core.Json.{Json}
use ahl_core.Merkle.{Hash, Merkle}
use ahl_core.Tree.{
  is_canonical_commitment, before, record_of, field_str, recomputed_root, open_leaf_set,
}
use ahl_core.Tree.Opened.{ascending, Records, open_leaf_set_iff}
use ahl_core.Tree.Sorting.{check_records, record_key, cmp_record, check_unique, record_sorted}

-- In the order of text, what is neither greater nor equal comes before.
before_of :
    (a b : Str)
    → is_gt (Ord.cmp (list_ord {A = ℕ}) a b) ≡ false
    → str_eq a b ≡ false
    → before a b ≡ true
before_of a b g e = by_order (Ord.cmp (list_ord {A = ℕ}) a b) refl g
  where
    by_order :
        (o : Ordering) → Ord.cmp (list_ord {A = ℕ}) a b ≡ o → is_gt o ≡ false → before a b ≡ true
    by_order Ordering.lt h k = rw h refl
    by_order Ordering.eq h k = absurd (
        clash
          (sym e ∙ (ap (str_eq a) (sym (Ord.eq_of_cmp (list_ord {A = ℕ}) a b h)) ∙ str_eq_refl a)))
      where
        clash : false ≡ true → ⊥
        clash p = cc
    by_order Ordering.gt h k = cc

module _ (json : Json) where
  open json use {Value}

  abbrev is_canonical_leaf : Value → Bool
  is_canonical_leaf leaf = elim (record_of json leaf) [
    | some commitment ↦ is_canonical_commitment commitment
    | none ↦ false
  ]

  check_records-ok :
      (leaves : List Value)
      → check_records json leaves ≡ ok tt
      → all is_canonical_leaf leaves ≡ true
  unfolding check_records field_str
  check_records-ok [] e = refl
  check_records-ok (leaf ∷ rest) e = ground (arith, check_records-ok rest)

  check_unique-ok :
      (leaves : List Value)
      → check_unique json leaves ≡ ok tt
      → is_sorted (cmp_record json) leaves ≡ true
      → ascending (map (record_key json) leaves) ≡ true
  unfolding check_unique
  check_unique-ok [] e s = refl
  check_unique-ok (left ∷ []) e s = refl
  check_unique-ok (left ∷ right ∷ rest) e s =
      let (passed, later) =
        then-eq-ok
          (reject_if (str_eq (record_key json left) (record_key json right))
            (duplicate_record (record_key json left)))
          (check_unique json (right ∷ rest)) e in
      let differ =
        reject_if-eq-ok (str_eq (record_key json left) (record_key json right))
          (duplicate_record (record_key json left)) passed in
      let (here, there) =
        sorted_parts (is_gt (cmp_record json left right))
          (is_sorted (cmp_record json) (right ∷ rest)) s in
      rw
        (
          before_of (record_key json left) (record_key json right) here differ,
          check_unique-ok (right ∷ rest) later there,
        )
        refl
    where
      sorted_parts : (a b : Bool) → (not a && b) ≡ true → (a ≡ false) × (b ≡ true)
      sorted_parts a b p = (ground arith, ground arith)

  leaf-read :
      (leaf : Value)
      → is_canonical_leaf leaf ≡ true
      → (record_of json leaf ≡ some (record_key json leaf))
        × (is_canonical_commitment (record_key json leaf) ≡ true)
  unfolding record_key
  leaf-read leaf h = (ground arith, ground arith)

  keys-read :
      (leaves : List Value)
      → all is_canonical_leaf leaves ≡ true
      → Records json leaves (map (record_key json) leaves)
  unfolding record_key
  keys-read [] h = (refl, refl)
  keys-read (leaf ∷ rest) h =
      let (read, canonical) = keys-read rest (ground arith) in
      let (this, is_this) = leaf-read leaf (ground arith) in
      (ap₂ (λ a as'. a ∷ as') this read, rw (is_this, canonical) refl)

  module _ (m : Merkle) (sha256 : Bytes → Hash) (hex : Bytes → Str) where
    -- What `record_sorted` returns holds every leaf as often as it was given, and
    -- `ValidatedLeafSet::open` opens it under its own root and length.
    pub record_sorted-opens :
        (leaves sorted : List Value)
        → record_sorted json leaves ≡ ok sorted
        → ((p : Value → Bool) → length (filter p sorted) ≡ length (filter p leaves))
          × (open_leaf_set json m sha256 hex
                (recomputed_root json m sha256 hex sorted)
                (length sorted)
                sorted
              ≡ ok record { root = recomputed_root json m sha256 hex sorted; leaves = sorted })
    unfolding record_sorted
    record_sorted-opens leaves sorted e =
        let (e1, r1) =
          then-eq-ok (check_records json leaves)
            (check_unique json (in_order leaves) >> ok (in_order leaves)) e in
        let (e2, r2) = then-eq-ok (check_unique json (in_order leaves)) (ok (in_order leaves)) r1 in
        let same = ok-injective (in_order leaves) sorted r2 in
        let canonical =
          all-sort_by (cmp_record json) (is_canonical_leaf) leaves ∙ check_records-ok leaves e1 in
        let ascends = check_unique-ok (in_order leaves) e2 (
          sorted-sort_by (cmp_record json)
            (λ a b. Ord.cmp_swap (list_ord {A = ℕ}) (record_key json a) (record_key json b))
            leaves) in
        (
          λ p.
              ap (λ l. length (filter p l)) (sym same)
              ∙ length-filter-sort_by (cmp_record json) p leaves,
          rw (sym same) (
              (open_leaf_set_iff json m sha256 hex
                  (recomputed_root json m sha256 hex (in_order leaves)) (length (in_order leaves))
                  (in_order leaves)).1
                (
                  refl,
                  (
                    map (record_key json) (in_order leaves),
                    keys-read (in_order leaves) canonical,
                    ascends,
                  ),
                  refl,
                )),
        )
      where
        in_order : List Value → List Value
        in_order l = sort_by (cmp_record json) l
