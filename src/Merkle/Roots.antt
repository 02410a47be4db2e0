-- ===== src/Merkle/Roots.antt =====
-- Roots of slices of a list of leaf hashes, under the rules of RFC 6962 that range_proof.rs states.
use mathlib.Core.Option.{some-injective}
use native.Mathlib.Nat.{zero-add, suc-add, pow-le-pow_right}
use native.Mathlib.Decide.{dec_le}
use ahl_core.Prelude.{
  ℕ, zero, suc, ◌+◌, ◌-◌, ◌^◌, ◌≤◌, ◌<◌, ◌≡◌, ◌⊎◌, inl, inr, refl, sym, ap, ap₂, ◌∙◌, Bool-cases,
  List, [], ◌∷◌, ◌++◌, arith, length, take, drop, get_elem?, length-take, length-drop, drop-drop,
  take-nil, take-append-drop, str_eq, str_eq_iff,
}
use ahl_core.Merkle.{Hash, Merkle, IsSplit, IsRfc6962, Collision}

-- `all[offset .. offset + size]`
abbrev pub slice {ℓ} : {A : Type ℓ} → ℕ → ℕ → List A → List A
slice offset size all = take size (drop offset all)

module _ {ℓ} {A : Type ℓ} where
  pub take-take : (k n : ℕ) (xs : List A) → k ≤ n → take k (take n xs) ≡ take k xs
  take-take zero n xs h = refl
  take-take (suc k) zero xs h = absurd (omega arith)
  take-take (suc k) (suc n) [] h = refl
  take-take (suc k) (suc n) (x ∷ xs) h = ap (λ r. x ∷ r) (take-take k n xs (omega arith))

  pub drop-take : (k n : ℕ) (xs : List A) → drop k (take n xs) ≡ take (n - k) (drop k xs)
  drop-take zero n xs = ap (λ i. take i xs) {x = n} (omega arith)
  drop-take (suc k) zero xs = ap (λ i. take i (drop (suc k) xs)) {x = 0} (omega arith)
  drop-take (suc k) (suc n) [] = sym (take-nil (suc n - suc k))
  drop-take (suc k) (suc n) (x ∷ xs) =
      drop-take k n xs ∙ ap (λ i. take i (drop k xs)) {x = n - k} (omega arith)

  -- A slice of a slice.
  pub slice-slice :
      (lo s o n : ℕ) (all : List A) → lo + s ≤ n → slice lo s (slice o n all) ≡ slice (o + lo) s all
  slice-slice lo s o n all h =
      ap (take s) (drop-take lo n (drop o all))
      ∙ take-take s (n - lo) (drop lo (drop o all)) (omega arith)
      ∙ ap (take s) (drop-drop lo o all)

  pub length-slice :
      (offset size : ℕ) (all : List A)
      → offset + size ≤ length all
      → length (slice offset size all) ≡ size
  length-slice offset size all h =
      omega (arith, length-take size (drop offset all), length-drop offset all)

module _ {ℓ} {A : Type ℓ} where
  pub get_elem?-drop : (o j : ℕ) (xs : List A) → get_elem? (drop o xs) j ≡ get_elem? xs (o + j)
  get_elem?-drop zero j xs = rw zero-add
  get_elem?-drop (suc o) j [] = refl
  get_elem?-drop (suc o) j (x ∷ xs) = rw suc-add (get_elem?-drop o j xs)

  pub get_elem?-take : (n j : ℕ) (xs : List A) → j < n → get_elem? (take n xs) j ≡ get_elem? xs j
  get_elem?-take zero j xs h = absurd (omega arith)
  get_elem?-take (suc n) j [] h = refl
  get_elem?-take (suc n) zero (x ∷ xs) h = refl
  get_elem?-take (suc n) (suc j) (x ∷ xs) h = get_elem?-take n j xs (omega arith)

  pub get_elem?-slice :
      (o n j : ℕ) (xs : List A) → j < n → get_elem? (slice o n xs) j ≡ get_elem? xs (o + j)
  get_elem?-slice o n j xs h = get_elem?-take n j (drop o xs) h ∙ get_elem?-drop o j xs

  -- Two lists of one length with the same elements below it are equal.
  pub eq_of_get_elem? :
      (xs ys : List A)
      → length xs ≡ length ys
      → ((j : ℕ) → j < length xs → get_elem? xs j ≡ get_elem? ys j)
      → xs ≡ ys
  eq_of_get_elem? [] [] len h = refl
  eq_of_get_elem? [] (y ∷ ys) len h = absurd (omega arith)
  eq_of_get_elem? (x ∷ xs) [] len h = absurd (omega arith)
  eq_of_get_elem? (x ∷ xs) (y ∷ ys) len h =
      ap₂ (λ a as'. a ∷ as') (some-injective x y (h 0 (omega arith)))
        (eq_of_get_elem? xs ys (omega arith) (λ j b. h (suc j) (omega arith)))

-- The split point lies inside, and halves the size.
pub split-pos : {n k : ℕ} → 1 < n → IsSplit n k → (0 < k) × (k < n) × (n - k ≤ k)
split-pos h s = (omega (arith, s.half), s.below, omega (arith, s.half))

pub split-le-pow : {n k : ℕ} (r : ℕ) → IsSplit n k → n ≤ 2 ^ suc r → k ≤ 2 ^ r
split-le-pow r s h = elim (dec_le s.exponent r) [
  | yes le ↦ rw s.power (pow-le-pow_right (omega arith) le)
  | no gt ↦
      let above : 2 ^ suc r ≤ 2 ^ s.exponent =
        pow-le-pow_right (omega arith) {i = suc r} {j = s.exponent} (omega arith) in
      absurd (omega (arith, s.power, s.below))
]

module _ (m : Merkle) (laws : IsRfc6962 m) where
  open m use {compute_root, hash_children, largest_power_of_2_less_than}

  pub compute_root-slice :
      (offset size : ℕ) (all : List Hash)
      → 1 < size
      → offset + size ≤ length all
      → compute_root (slice offset size all)
        ≡ hash_children (compute_root (slice offset (largest_power_of_2_less_than size) all)) (
            compute_root (
              slice
                (offset + largest_power_of_2_less_than size)
                (size - largest_power_of_2_less_than size)
                all))
  compute_root-slice offset size all big within =
      let k = largest_power_of_2_less_than size in
      let len = length-slice offset size all within in
      let step = laws.root_split (slice offset size all) (omega arith) in
      (rw len at step)
      ∙ ap₂ (λ l r. hash_children (compute_root l) (compute_root r))
          (take-take k size (drop offset all) (omega (arith, (laws.split size big).below)))
          (drop-take k size (drop offset all) ∙ ap (take (size - k)) (drop-drop k offset all))

  -- Equal parents have equal children, or show a collision.
  pub children-eq :
      (a b c d : Hash) → hash_children a b ≡ hash_children c d → ((a ≡ c) × (b ≡ d)) ⊎ Collision m
  children-eq a b c d same = elim (Bool-cases (str_eq a c)) [
    | inl left ↦ elim (Bool-cases (str_eq b d)) [
      | inl right ↦ inl ((str_eq_iff a c).0 left, (str_eq_iff b d).0 right)
      | inr differ ↦ inr (record {
        left = a;
        right = b;
        left' = c;
        right' = d;
        same = same;
        differ = inr (λ e. ground (arith, str_eq_iff b d));
      })
    ]
    | inr differ ↦ inr (record {
      left = a;
      right = b;
      left' = c;
      right' = d;
      same = same;
      differ = inl (λ e. ground (arith, str_eq_iff a c));
    })
  ]

  -- Lists of one length with one root are equal, or show a collision.
  pub compute_root-injective :
      (fuel : ℕ) (xs ys : List Hash)
      → length xs ≤ fuel
      → 0 < length xs
      → length ys ≡ length xs
      → compute_root xs ≡ compute_root ys
      → (xs ≡ ys) ⊎ Collision m
  compute_root-injective fuel [] ys h pos len e = absurd (omega arith)
  compute_root-injective fuel (x ∷ []) [] h pos len e = absurd (omega arith)
  compute_root-injective fuel (x ∷ []) (y ∷ []) h pos len e =
      inl (ap (λ z. z ∷ []) (sym (laws.root_one x) ∙ e ∙ laws.root_one y))
  compute_root-injective fuel (x ∷ []) (y ∷ y' ∷ ys) h pos len e = absurd (omega arith)
  compute_root-injective zero (x ∷ x' ∷ xs) ys h pos len e = absurd (omega arith)
  compute_root-injective (suc fuel) (x ∷ x' ∷ xs) ys h pos len e =
      let all = x ∷ x' ∷ xs in
      let n = length all in
      let k = largest_power_of_2_less_than n in
      let s = laws.split n (omega arith) in
      let bounds = split-pos {n = n} {k = k} (omega arith) s in
      let step = laws.root_split all (omega arith) in
      let step' = laws.root_split ys (omega arith) in
      let same = sym step ∙ e ∙ (rw len at step') in
      elim (children-eq _ _ _ _ same) [
        | inr c ↦ inr c
        | inl (l, r) ↦
            elim (compute_root-injective fuel (take k all) (take k ys)
              (omega (arith, length-take k all)) (omega (arith, length-take k all))
              (omega (arith, length-take k all, length-take k ys)) l) [
                | inr c ↦ inr c
                | inl heads ↦
                    elim (compute_root-injective fuel (drop k all) (drop k ys)
                      (omega (arith, length-drop k all)) (omega (arith, length-drop k all))
                      (omega (arith, length-drop k all, length-drop k ys)) r) [
                        | inr c ↦ inr c
                        | inl tails ↦ inl (
                            sym (take-append-drop k all)
                            ∙ ap₂ (λ a b. a ++ b) heads tails
                            ∙ take-append-drop k ys)
                      ]
              ]
      ]
