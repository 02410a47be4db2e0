-- ===== src/Tree/Opened.antt =====
-- The leaf sets that `ValidatedLeafSet::open` of src/tree.rs opens.
use ahl_core.Prelude.{
  ℕ, ◌+◌, Bool, true, false, not, ◌&&◌, Option, none, some, List, [], ◌∷◌, Str, Bytes, codes,
  str_eq, str_eq→eq, str_eq_refl, ==_iff, ◌≡◌, ◌↔◌, refl, ap₂, ◌==◌, all, map, length, arith,
}
use ahl_core.Error.{
  AhlError, Result, ok, reject_if, ◌>>◌, bind-eq-ok, then-eq-ok, ok_or-eq-ok, reject_if-eq-ok,
}
use ahl_core.Json.{Json}
use ahl_core.Merkle.{Hash, Merkle}
use ahl_core.Tree.{
  is_canonical_commitment, before, is_unsorted, record_of, field_str, check_record, check_leaves,
  ValidatedLeafSet, recomputed_root, open_leaf_set,
}

-- Each record comes before the next one.
abbrev pub ascending : List Str → Bool
ascending [] = true
ascending (r ∷ []) = true
ascending (r ∷ s ∷ rest) = let later = ascending (s ∷ rest) in before r s && later

abbrev from_previous : Option Str → List Str → List Str
from_previous none rs = rs
from_previous (some r) rs = r ∷ rs

not-false : (b : Bool) → not b ≡ false → b ≡ true
not-false true e = refl
not-false false e = cc

cons-injective {ℓ} :
    {A : Type ℓ} (x y : A) (xs ys : List A) → (x ∷ xs) ≡ (y ∷ ys) → (x ≡ y) × (xs ≡ ys)
cons-injective x y xs ys e = (cc, cc)

and_parts : (a b : Bool) → a && b ≡ true → (a ≡ true) × (b ≡ true)
and_parts a b e = (ground arith, ground arith)

module _ (json : Json) where
  open json use {Value}

  abbrev pub Records : List Value → List Str → Type 0
  Records leaves records =
      (map (record_of json) leaves ≡ map (λ r. some r) records)
      × (all is_canonical_commitment records ≡ true)

  joined :
      (previous : Option Str) (r : Str) (rs : List Str)
      → is_unsorted previous r ≡ false
      → ascending (r ∷ rs) ≡ true
      → ascending (from_previous previous (r ∷ rs)) ≡ true
  joined none r rs e h = h
  joined (some p) r rs e h = rw (not-false (before p r) e, h) refl

  checked :
      (root : Str) (index : ℕ) (previous : Option Str) (leaves : List Value)
      → check_leaves json root index previous leaves ≡ ok tt
      → (records : List Str) × Records leaves records
        × (ascending (from_previous previous records) ≡ true)
  unfolding check_leaves check_record field_str
  checked root index none [] e = ([], (refl, refl), refl)
  checked root index (some p) [] e = ([], (refl, refl), refl)
  checked root index previous (leaf ∷ rest) e =
      let (r, h1, e1) =
        bind-eq-ok
          (λ c.
            check_record json root index previous c
            >> check_leaves json root (index + 1) (some c) rest)
          (field_str json leaf (codes "record")) e in
      let (g, e2) =
        then-eq-ok (check_record json root index previous r)
          (check_leaves json root (index + 1) (some r) rest) e1 in
      let (g1, g2) = then-eq-ok _ (reject_if (is_unsorted previous r) _) g in
      let (rs, (read, canonical), sorted) = checked root (index + 1) (some r) rest e2 in
      (
        r ∷ rs,
        (
          ap₂ (λ x xs. x ∷ xs) (ok_or-eq-ok _ _ h1) read,
          rw (not-false (is_canonical_commitment r) (reject_if-eq-ok _ _ g1), canonical) refl,
        ),
        joined previous r rs (reject_if-eq-ok _ _ g2) sorted,
      )

  parted :
      (previous : Option Str) (r : Str) (rs : List Str)
      → ascending (from_previous previous (r ∷ rs)) ≡ true
      → (is_unsorted previous r ≡ false) × (ascending (r ∷ rs) ≡ true)
  parted none r rs h = (refl, h)
  parted (some p) r rs h = (ground arith, ground arith)

  checks :
      (root : Str) (index : ℕ) (previous : Option Str) (leaves : List Value) (records : List Str)
      → Records leaves records
      → ascending (from_previous previous records) ≡ true
      → check_leaves json root index previous leaves ≡ ok tt
  unfolding check_leaves check_record field_str
  checks root index previous [] [] h sorted = refl
  checks root index previous [] (r ∷ rs) h sorted = cc
  checks root index previous (leaf ∷ rest) [] h sorted = cc
  checks root index previous (leaf ∷ rest) (r ∷ rs) (read, canonical) sorted =
      let (head, tail) = cons-injective (record_of json leaf) (some r) _ _ read in
      let (fresh, later) = parted previous r rs sorted in
      let (this, others) =
        and_parts (is_canonical_commitment r) (all is_canonical_commitment rs) canonical in
      rw (head, this, fresh) (checks root (index + 1) (some r) rest rs (tail, others) later)

  module _ (m : Merkle) (sha256 : Bytes → Hash) (hex : Bytes → Str) where
    -- A valid leaf set: as many leaves as declared, each with a canonical commitment as its record,
    -- in strictly ascending order of the records, under the root.
    abbrev pub IsLeafSet : Str → ℕ → List Value → Type 0
    IsLeafSet root declared leaves =
        (length leaves ≡ declared)
        × ((records : List Str) × Records leaves records × (ascending records ≡ true))
        × (recomputed_root json m sha256 hex leaves ≡ root)

    abbrev opened : Str → List Value → Result AhlError (ValidatedLeafSet json)
    opened root leaves = ok record { root = root; leaves = leaves }

    sound :
        (root : Str) (declared : ℕ) (leaves : List Value)
        → open_leaf_set json m sha256 hex root declared leaves ≡ opened root leaves
        → IsLeafSet root declared leaves
    unfolding open_leaf_set
    sound root declared leaves e =
        let (g1, e1) = then-eq-ok _ _ e in
        let (g2, e2) = then-eq-ok (check_leaves json root 0 none leaves) _ e1 in
        let (g3, e3) = then-eq-ok _ (opened root leaves) e2 in
        (
          (==_iff (length leaves) declared).0
              (not-false (length leaves == declared) (reject_if-eq-ok _ _ g1)),
          checked root 0 none leaves g2,
          str_eq→eq (recomputed_root json m sha256 hex leaves) root (
              not-false (str_eq (recomputed_root json m sha256 hex leaves) root)
                (reject_if-eq-ok _ _ g3)),
        )

    complete :
        (root : Str) (declared : ℕ) (leaves : List Value)
        → IsLeafSet root declared leaves
        → open_leaf_set json m sha256 hex root declared leaves ≡ opened root leaves
    unfolding open_leaf_set
    complete root declared leaves (count, (records, read, sorted), hashed) =
        rw
          (
            (==_iff (length leaves) declared).1 count,
            checks root 0 none leaves records read sorted,
            hashed,
            str_eq_refl root,
          )
          refl

    pub open_leaf_set_iff :
        (root : Str) (declared : ℕ) (leaves : List Value)
        → (open_leaf_set json m sha256 hex root declared leaves
            ≡ ok record { root = root; leaves = leaves })
          ↔ IsLeafSet root declared leaves
    open_leaf_set_iff root declared leaves =
        (sound root declared leaves, complete root declared leaves)
