-- ===== src/Merkle/Toy.antt =====
-- A Merkle module that meets the assumptions of this library: nodes are concatenated instead of
-- hashed. It serves the tests.
use native.Mathlib.Nat.{pow-suc}
use mathlib.Core.List.{append-nil, append_assoc}
use ahl_core.Prelude.{
  ℕ, zero, suc, ◌+◌, ◌*◌, ◌^◌, ◌≤◌, ◌<◌, ◌≡◌, refl, sym, ap, ◌∙◌, true, Bool-cases, inl, inr, List,
  [], ◌∷◌, ◌++◌, arith, length, take, take-append-drop, ltb, if◌then◌else◌, ltb→lt,
}
use ahl_core.Error.{ok}
use ahl_core.Merkle.{Hash, Merkle, IsSplit, IsRfc6962}

unfoldable pub concat : List Hash → Hash
concat [] = []
concat (h ∷ hs) = h ++ concat hs

concat-append : (xs ys : List Hash) → concat (xs ++ ys) ≡ concat xs ++ concat ys
unfolding concat
concat-append [] ys = refl
concat-append (x ∷ xs) ys = ap (λ r. x ++ r) (concat-append xs ys) ∙ sym (append_assoc x _ _)

-- Doubles k while 2 k is smaller than n.
unfoldable pub double_below : ℕ → ℕ → ℕ → ℕ
double_below zero n k = k
double_below (suc fuel) n k =
    let next = double_below fuel n (2 * k) in if ltb (2 * k) n then next else k

double_below-IsSplit :
    (fuel n k e : ℕ) → k ≡ 2 ^ e → k < n → 0 < k → n ≤ fuel + k → IsSplit n (double_below fuel n k)
unfolding double_below
double_below-IsSplit zero n k e p below pos enough = absurd (omega arith)
double_below-IsSplit (suc fuel) n k e p below pos enough = elim (Bool-cases (ltb (2 * k) n)) [
  | inl more ↦ rw more (
      double_below-IsSplit fuel n (2 * k) (suc e) (omega (arith, pow-suc 2 e)) (ltb→lt _ _ more)
        (omega arith) (omega arith))
  | inr done ↦ rw done (record { exponent = e; power = p; below = below; half = ground arith })
]

abbrev pub toy : Merkle
toy = record {
  compute_root = concat;
  hash_children = λ a b. a ++ b;
  largest_power_of_2_less_than = λ n. double_below n n 1;
  verify_inclusion = λ leaf proof root. ok true;
}

pub toy-IsRfc6962 : IsRfc6962 toy
unfolding concat double_below
toy-IsRfc6962 = record {
  split = λ n h. double_below-IsSplit n n 1 0 refl h (omega arith) (omega arith);
  root_one = λ h. append-nil h;
  root_split = λ hs h.
      ap concat (sym (take-append-drop (double_below (length hs) (length hs) 1) hs))
      ∙ concat-append (take (double_below (length hs) (length hs) 1) hs) _;
}
