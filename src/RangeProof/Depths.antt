-- ===== src/RangeProof/Depths.antt =====
-- The stable sort by falling depth that `verify` (range_proof.rs) applies to the collected nodes.
use ahl_core.Prelude.{ℕ, ◌≤◌, ◌<◌, ◌≡◌, refl, Bool-cases, inl, inr, List, [], ◌∷◌, ◌++◌, arith, leb}
use ahl_core.Merkle.{Hash}
use ahl_core.RangeProof.{insert_by_depth, sort_by_depth}

-- Every depth of the list is above d.
abbrev pub Deeper : ℕ → List (ℕ × Hash) → Type 0
Deeper d [] = Unit
Deeper d (x ∷ xs) = (d < x.0) × Deeper d xs

pub Deeper-append :
    (d : ℕ) (xs ys : List (ℕ × Hash)) → Deeper d xs → Deeper d ys → Deeper d (xs ++ ys)
Deeper-append d [] ys h k = k
Deeper-append d (x ∷ xs) ys h k = (h.0, Deeper-append d xs ys h.1 k)

pub Deeper-le : (d e : ℕ) (xs : List (ℕ × Hash)) → e ≤ d → Deeper d xs → Deeper e xs
Deeper-le d e [] h k = tt
Deeper-le d e (x ∷ xs) h k = (omega arith, Deeper-le d e xs h k.1)

-- The least deep entry goes to the end, wherever it stood.
pub insert_by_depth-last :
    (x : ℕ × Hash) (ys : List (ℕ × Hash)) → Deeper x.0 ys → insert_by_depth x ys ≡ ys ++ x ∷ []
unfolding insert_by_depth
insert_by_depth-last x [] h = refl
insert_by_depth-last x (y ∷ ys) h = ground (arith, insert_by_depth-last x ys h.1)

Deeper-insert :
    (d : ℕ) (x : ℕ × Hash) (ys : List (ℕ × Hash))
    → d < x.0
    → Deeper d ys
    → Deeper d (insert_by_depth x ys)
unfolding insert_by_depth
Deeper-insert d x [] h k = (h, tt)
Deeper-insert d x (y ∷ ys) h k = elim (Bool-cases (leb y.0 x.0)) [
  | inl first ↦ rw (first, insert_by_depth) (h, k)
  | inr later ↦ rw (later, insert_by_depth) (k.0, Deeper-insert d x ys h k.1)
]

pub Deeper-sort : (d : ℕ) (xs : List (ℕ × Hash)) → Deeper d xs → Deeper d (sort_by_depth xs)
unfolding sort_by_depth
Deeper-sort d [] h = tt
Deeper-sort d (x ∷ xs) h = Deeper-insert d x (sort_by_depth xs) h.0 (Deeper-sort d xs h.1)

insert_by_depth-append :
    (x y : ℕ × Hash) (ys : List (ℕ × Hash))
    → y.0 < x.0
    → insert_by_depth x (ys ++ y ∷ []) ≡ insert_by_depth x ys ++ y ∷ []
unfolding insert_by_depth
insert_by_depth-append x y [] h = ground arith
insert_by_depth-append x y (z ∷ ys) h = ground (arith, insert_by_depth-append x y ys h)

pub sort_by_depth-last :
    (xs : List (ℕ × Hash)) (x : ℕ × Hash)
    → Deeper x.0 xs
    → sort_by_depth (xs ++ x ∷ []) ≡ sort_by_depth xs ++ x ∷ []
unfolding sort_by_depth
sort_by_depth-last [] x h = unfold insert_by_depth in refl
sort_by_depth-last (y ∷ ys) x h =
    rw (sort_by_depth-last ys x h.1) (insert_by_depth-append y x (sort_by_depth ys) h.0)
