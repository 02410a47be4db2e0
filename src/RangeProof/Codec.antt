-- ===== src/RangeProof/Codec.antt =====
-- The serialized form of a range proof (src/range_proof.rs, `encode` and `decode`) and
-- `verify_over_leaves`. A `u32` count fits `usize`, which is 64 bits wide.
use ahl_core.Prelude.{
  ℕ, zero, suc, ◌+◌, ◌*◌, ◌/◌, min, Bool, false, not, Option, none, some, List, [], ◌∷◌, ◌++◌, map,
  Bytes, Str, codes, str_eq, length, take, drop, ltb, leb, ◌==◌, if◌then◌else◌,
}
use ahl_core.Prelude.Words.{to_be, from_be}
use ahl_core.Error.{
  text, num, lit, range_proof, base64, ok, AhlResult, ◌>>=◌, ◌>>◌, map_err, reject_if,
}
use ahl_core.Merkle.{Hash, Merkle}
use ahl_core.Base64.{Base64, strip}
use ahl_core.Tree.{leaf_hash}
use ahl_core.RangeProof.{u64_max, u32_max, get_range, RangeProof, verify}

abbrev pub range_proof_magic : Bytes
range_proof_magic = codes "AHLRP1"

abbrev pub header_len : ℕ
header_len = 6 + 8 + 8 + 8 + 4

-- The nodes one after the other.
unfoldable pub joined : List Hash → Bytes
joined [] = []
joined (node ∷ nodes) = node ++ joined nodes

-- The bytes that `encode` renders.
unfoldable pub to_bytes : RangeProof → Bytes
to_bytes proof =
    range_proof_magic
    ++ (to_be 8 proof.tree_size
        ++ (to_be 8 proof.from_index
            ++ (to_be 8 proof.to_index
                ++ (to_be 4 (min (length proof.nodes) u32_max) ++ joined proof.nodes))))

-- `bytes.get(at..at + width)` as a big-endian number, where an absent one reads as zero.
unfoldable pub read_be : Bytes → ℕ → ℕ → ℕ
read_be bytes at width = elim (get_range bytes at (at + width)) [
  | some slice ↦ from_be slice
  | none ↦ 0
]

unfoldable pub has_magic : Bytes → Bool
has_magic bytes = elim (get_range bytes 0 6) [
  | some magic ↦ str_eq magic range_proof_magic
  | none ↦ false
]

-- `bytes.get(HEADER_LEN..).unwrap_or(&[])`
unfoldable pub body_of : Bytes → Bytes
body_of bytes = if leb header_len (length bytes) then drop header_len bytes else []

-- `checked_mul`
unfoldable pub checked_mul : ℕ → ℕ → Option ℕ
checked_mul a b = if leb (a * b) u64_max then some (a * b) else none

unfoldable pub declares : ℕ → Bytes → Bool
declares node_count body = elim (checked_mul node_count 32) [
  | some declared ↦ declared == length body
  | none ↦ false
]

-- The whole chunks of `as_chunks::<32>()`, which are `length / 32` many.
unfoldable pub chunks : ℕ → Bytes → List Hash
chunks zero body = []
chunks (suc count) body = take 32 body ∷ chunks count (drop 32 body)

-- The checks of `decode` on the decoded bytes.
unfoldable pub check_length : Bytes → AhlResult (Unit {0})
check_length bytes =
    reject_if (ltb (length bytes) header_len)
      (range_proof (text (codes "truncated: ") ∷ num (length bytes) ∷ text (codes " bytes") ∷ []))

unfoldable pub check_magic : Bytes → AhlResult (Unit {0})
check_magic bytes =
    reject_if (not (has_magic bytes)) (range_proof (lit (codes "wrong magic; expected AHLRP1")))

unfoldable pub check_count : Bytes → AhlResult (Unit {0})
check_count bytes = reject_if (not (declares (read_be bytes 30 4) (body_of bytes))) (
    range_proof (
      text (codes "declares ")
      ∷ num (read_be bytes 30 4)
      ∷ text (codes " subtree hashes but carries ")
      ∷ num (length (body_of bytes))
      ∷ text (codes " bytes of node data")
      ∷ []))

unfoldable pub fields_of : Bytes → RangeProof
fields_of bytes = record {
  tree_size = read_be bytes 6 8;
  from_index = read_be bytes 14 8;
  to_index = read_be bytes 22 8;
  nodes = chunks (length (body_of bytes) / 32) (body_of bytes);
}

-- `decode` after the base64 text was decoded.
unfoldable pub parse_bytes : Bytes → AhlResult RangeProof
parse_bytes bytes =
    check_length bytes >> (check_magic bytes >> (check_count bytes >> ok (fields_of bytes)))

module _ (b64 : Base64) where
  unfoldable pub encode : RangeProof → Str
  encode proof = codes "base64:" ++ b64.encode (to_bytes proof)

  unfoldable pub decode : Str → AhlResult RangeProof
  decode value = strip value (codes "base64:") >>= λ encoded.
      map_err base64 (b64.decode encoded) >>= λ bytes. parse_bytes bytes

module _ (m : Merkle) (sha256 : Bytes → Hash) (hex : Bytes → Str) where
  unfoldable pub verify_over_leaves : RangeProof → List Bytes → Hash → AhlResult Bool
  verify_over_leaves proof leaves root = verify m proof (map (leaf_hash m sha256 hex) leaves) root
