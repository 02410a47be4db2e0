-- ===== src/Governance/Snapshot.antt =====
-- The manifest in force at an entry index (src/receipt.rs: `snapshot_manifest_in`).
use ahl_core.Prelude.{
  ℕ, ◌≤◌, ◌<◌, ◌≡◌, Bool, true, ◌&&◌, Option, none, some, List, [], ◌∷◌, get_elem?, ltb,
  if◌then◌else◌,
}

module _ {Value : Type 0} where
  -- The chain is walked in the order of its entry indexes.
  abbrev pub ascends : List (ℕ × Value) → Bool
  ascends [] = true
  ascends (m ∷ []) = true
  ascends (m ∷ n ∷ rest) = let later = ascends (n ∷ rest) in ltb m.0 n.0 && later

  -- A manifest of the chain below an index, after which there is none below it.
  pub record IsLast (manifests : List (ℕ × Value)) (index : ℕ) (found : ℕ × Value) : Type 0 where
    pub place : ℕ
    pub stands : get_elem? manifests place ≡ some found
    pub below : found.0 < index
    pub greatest :
        (i : ℕ) (m : ℕ × Value) → get_elem? manifests i ≡ some m → m.0 < index → m.0 ≤ found.0

  abbrev is_before : ℕ → ℕ × Value → Bool
  is_before index m = ltb m.0 index

  abbrev here_or : ℕ × Value → Bool → Option (ℕ × Value) → Option (ℕ × Value)
  here_or m b later = elim later [ some y ↦ some y | none ↦ if b then some m else none ]
