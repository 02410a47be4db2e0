-- ===== src/RangeProof/Slices.antt =====
-- The slices of an encoded range proof (src/range_proof.rs), and its nodes as chunks.
use ahl_core.Prelude.{
  ℕ, zero, suc, ◌+◌, ◌*◌, ◌≤◌, ◌≡◌, refl, sym, ap, ◌∙◌, Bool, true, ◌&&◌, List, [], ◌∷◌, ◌++◌,
  Bytes, length, take, drop, all, ◌==◌, arith, length-append, take-append-drop, length-take,
  length-drop, take-append, drop-append, drop-drop,
}
use ahl_core.Prelude.Words.{is_octet}
use ahl_core.Merkle.{Hash}
use ahl_core.RangeProof.{u64_max, u32_max, RangeProof}
use ahl_core.RangeProof.Codec.{range_proof_magic, joined, chunks}

-- `[u8; 32]`
abbrev pub is_node : Hash → Bool
is_node node = (length node == 32) && all is_octet node

-- What the types of the fields of `RangeProof` bound, and a node count that fits `u32`.
pub record IsWellFormed (proof : RangeProof) : Type 0 where
  pub tree_size_fits : proof.tree_size ≤ u64_max
  pub from_index_fits : proof.from_index ≤ u64_max
  pub to_index_fits : proof.to_index ≤ u64_max
  pub count_fits : length proof.nodes ≤ u32_max
  pub nodes_fit : all is_node proof.nodes ≡ true

-- The parts of an encoded proof, in order.
abbrev pub layout : Bytes → Bytes → Bytes → Bytes → Bytes → Bytes
layout a b c n body = range_proof_magic ++ (a ++ (b ++ (c ++ (n ++ body))))

pub take-at : (n : ℕ) (xs ys : Bytes) → length xs ≡ n → take n (xs ++ ys) ≡ xs
take-at n xs ys e = ap (λ k. take k (xs ++ ys)) (sym e) ∙ take-append xs ys

pub drop-at : (n k : ℕ) (xs ys : Bytes) → length xs ≡ n → drop (n + k) (xs ++ ys) ≡ drop k ys
drop-at n k xs ys e =
    sym (drop-drop k n (xs ++ ys))
    ∙ ap (drop k) (ap (λ i. drop i (xs ++ ys)) (sym e) ∙ drop-append xs ys)

-- Where a slice begins, the rest splits after it.
pub split-at :
    (at width : ℕ) (bytes : Bytes)
    → drop at bytes ≡ take width (drop at bytes) ++ drop (at + width) bytes
split-at at width bytes =
    sym (take-append-drop width (drop at bytes))
    ∙ ap (λ r. take width (drop at bytes) ++ r) (drop-drop width at bytes)

pub all-drop : (n : ℕ) (xs : Bytes) → all is_octet xs ≡ true → all is_octet (drop n xs) ≡ true
all-drop zero xs h = h
all-drop (suc n) [] h = h
all-drop (suc n) (x ∷ xs) h = all-drop n xs (ground arith)

pub all-take : (n : ℕ) (xs : Bytes) → all is_octet xs ≡ true → all is_octet (take n xs) ≡ true
all-take zero xs h = refl
all-take (suc n) [] h = h
all-take (suc n) (x ∷ xs) h = let rest = all-take n xs (ground arith) in ground arith

pub length-chunks : (count : ℕ) (body : Bytes) → length (chunks count body) ≡ count
unfolding chunks
length-chunks zero body = refl
length-chunks (suc count) body = ap suc (length-chunks count (drop 32 body))

pub joined-chunks :
    (count : ℕ) (body : Bytes) → length body ≡ count * 32 → joined (chunks count body) ≡ body
unfolding chunks joined
joined-chunks zero [] e = refl
joined-chunks zero (b ∷ body) e = absurd (omega (arith, e))
joined-chunks (suc count) body e =
    ap (λ r. take 32 body ++ r)
      (joined-chunks count (drop 32 body) (length-drop 32 body ∙ omega (arith, e)))
    ∙ take-append-drop 32 body

pub chunks-nodes :
    (count : ℕ) (body : Bytes)
    → length body ≡ count * 32
    → all is_octet body ≡ true
    → all is_node (chunks count body) ≡ true
unfolding chunks
chunks-nodes zero body e h = refl
chunks-nodes (suc count) body e h =
    let size : length (take 32 body) ≡ 32 = length-take 32 body ∙ omega (arith, e) in
    let octets = all-take 32 body h in
    let rest =
      chunks-nodes count (drop 32 body) (length-drop 32 body ∙ omega (arith, e))
        (all-drop 32 body h) in
    ground arith

pub length-joined :
    (nodes : List Hash) → all is_node nodes ≡ true → length (joined nodes) ≡ length nodes * 32
unfolding joined
length-joined [] h = refl
length-joined (node ∷ nodes) h =
    length-append node (joined nodes)
    ∙ omega (arith, node_size node nodes h, length-joined nodes (others node nodes h))
  where
    node_size : (n : Hash) (ns : List Hash) → all is_node (n ∷ ns) ≡ true → length n ≡ 32
    node_size n ns e = ground arith

    others : (n : Hash) (ns : List Hash) → all is_node (n ∷ ns) ≡ true → all is_node ns ≡ true
    others n ns e = ground arith

pub chunks-joined :
    (nodes : List Hash) → all is_node nodes ≡ true → chunks (length nodes) (joined nodes) ≡ nodes
unfolding chunks joined
chunks-joined [] h = refl
chunks-joined (node ∷ nodes) h =
    let size : length node ≡ 32 = ground arith in
    let rest : all is_node nodes ≡ true = ground arith in
    rw (take-at 32 node (joined nodes) size, drop-at 32 0 node (joined nodes) size)
      (ap (λ r. node ∷ r) (chunks-joined nodes rest))
