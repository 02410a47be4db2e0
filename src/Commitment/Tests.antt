-- ===== src/Commitment/Tests.antt =====
-- Commitments of src/lib.rs on small records, and the theorem at that input.
use ahl_core.Prelude.{◌≡◌, ◌⊎◌, refl, [], ◌∷◌, ◌++◌, Bytes, Str, codes}
use ahl_core.Error.{ok}
use ahl_core.Merkle.{Hash}
use ahl_core.Descriptor.{
  validate_dataset_id, validate_dataset_id_syntax, reject_dataset_id_control_octets,
}
use ahl_core.Commitment.{sha256_hex, commitment_input, commit_plain}
use ahl_core.Commitment.Injective.{DigestCollision, commit_plain_binds}

-- A digest that only keeps the length.
abbrev measured : Bytes → Hash
measured [] = []
measured (b ∷ bytes) = 97 ∷ measured bytes

abbrev same : Bytes → Bytes
same bytes = bytes

abbrev digest_a : Hash
digest_a = codes "0123456789abcdef0123456789abcdef"

abbrev digest_b : Hash
digest_b = codes "fedcba9876543210fedcba9876543210"

abbrev record_a : Bytes
record_a = 1 ∷ []

abbrev record_b : Bytes
record_b = 2 ∷ []

abbrev commitment : Str
commitment = codes "sha256:" ++ measured (codes "scores" ++ 0x1F ∷ (digest_a ++ 0x1F ∷ record_a))

first-run : commit_plain measured same (codes "scores") digest_a record_a ≡ ok commitment
unfolding commit_plain commitment_input sha256_hex validate_dataset_id validate_dataset_id_syntax
    reject_dataset_id_control_octets
first-run = refl

second-run : commit_plain measured same (codes "prices") digest_b record_b ≡ ok commitment
unfolding commit_plain commitment_input sha256_hex validate_dataset_id validate_dataset_id_syntax
    reject_dataset_id_control_octets
second-run = refl

commit_plain_binds_example :
    ((codes "scores" ≡ codes "prices") × (digest_a ≡ digest_b) × (record_a ≡ record_b))
    ⊎ DigestCollision measured same
commit_plain_binds_example =
    commit_plain_binds measured same (codes "scores") (codes "prices") digest_a digest_b record_a
      record_b commitment refl refl first-run second-run
