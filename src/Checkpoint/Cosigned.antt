-- ===== src/Checkpoint/Cosigned.antt =====
-- The projection of a checkpoint that a witness cosigns (src/lib.rs: `CosignedCheckpoint`,
-- `cosignature_bytes`).
pub mod Projected
pub mod Binding
mod Tests
use ahl_core.Prelude.{
  ℕ, Bool, not, none, some, List, [], ◌∷◌, ◌++◌, Bytes, Str, codes, str_eq, find, any,
}
use ahl_core.Error.{Message, text, lit, cosigned_checkpoint, ok, err, AhlResult, ◌>>=◌, ◌>>◌, ok_or}
use ahl_core.Json.{Json}
use ahl_core.Tree.{str_member}
use ahl_core.Closure.{u64_member}

abbrev pub cosigned_members_and_raw : List Str
cosigned_members_and_raw =
    codes "log_id"
    ∷ codes "tree_size"
    ∷ codes "root_hash"
    ∷ codes "checkpoint_time"
    ∷ codes "key_id"
    ∷ codes "signature"
    ∷ codes "raw"
    ∷ []

pub record CosignedCheckpoint : Type 0 where
  pub log_id : Str
  pub tree_size : ℕ
  pub root_hash : Str
  pub checkpoint_time : Str
  pub key_id : Str
  pub signature : Str

abbrev pub is_extra : Str → Bool
is_extra member = not (any (str_eq member) cosigned_members_and_raw)

abbrev extra_member : Str → Message
extra_member extra =
    text (codes "checkpoint carries `")
    ∷ text extra
    ∷ text (
        codes
          "`, which is neither one of the six members the cosigned object contains nor `raw`: adaptor "
        ++ (194 ∷ 167 ∷ codes "11.1 makes any other checkpoint member invalid"))
    ∷ []

-- The members are those of the object, none of them but the six and `raw`.
unfoldable pub check_extra : List Str → AhlResult (Unit {0})
check_extra members = elim (find is_extra members) [
  | some extra ↦ err (cosigned_checkpoint (extra_member extra))
  | none ↦ ok tt
]

module _ (json : Json) where
  open json use {Value, get, string, object, number, jcs, member_names}

  -- The closure `text` of `project`.
  unfoldable pub required_text : Value → Str → AhlResult Str
  required_text checkpoint member = ok_or (str_member json (get checkpoint member)) (
      cosigned_checkpoint
        (text (codes "`") ∷ text member ∷ text (codes "` is REQUIRED, a string") ∷ []))

  -- The six members.
  unfoldable pub read_members : Value → AhlResult CosignedCheckpoint
  read_members checkpoint =
      ok_or (u64_member json (get checkpoint (codes "tree_size")))
        (cosigned_checkpoint (lit (codes "`tree_size` is REQUIRED, an entry count")))
      >>= λ tree_size. required_text checkpoint (codes "log_id") >>= λ log_id.
          required_text checkpoint (codes "root_hash") >>= λ root_hash.
          required_text checkpoint (codes "checkpoint_time") >>= λ checkpoint_time.
          required_text checkpoint (codes "key_id") >>= λ key_id.
          required_text checkpoint (codes "signature") >>= λ signature. ok record {
            log_id = log_id;
            tree_size = tree_size;
            root_hash = root_hash;
            checkpoint_time = checkpoint_time;
            key_id = key_id;
            signature = signature;
          }

  unfoldable pub project : Value → AhlResult CosignedCheckpoint
  project checkpoint =
      ok_or (member_names checkpoint) (
        cosigned_checkpoint
          (lit (codes "a checkpoint MUST be a JSON object (I-D " ++ (194 ∷ 167 ∷ codes "7.1)"))))
      >>= λ members. check_extra members >> read_members checkpoint

  abbrev pub object_members : CosignedCheckpoint → List (Str × Value)
  object_members c =
      (codes "log_id", string c.log_id)
      ∷ (codes "tree_size", number c.tree_size)
      ∷ (codes "root_hash", string c.root_hash)
      ∷ (codes "checkpoint_time", string c.checkpoint_time)
      ∷ (codes "key_id", string c.key_id)
      ∷ (codes "signature", string c.signature)
      ∷ []

  unfoldable pub cosigned_object : CosignedCheckpoint → Value
  cosigned_object c = object (object_members c)

  abbrev pub preimage_members : CosignedCheckpoint → Str → List (Str × Value)
  preimage_members checkpoint witness_id =
      (codes "checkpoint", cosigned_object checkpoint)
      ∷ (codes "witness_id", string witness_id)
      ∷ []

  unfoldable pub cosignature_bytes : CosignedCheckpoint → Str → Bytes
  cosignature_bytes checkpoint witness_id = jcs (object (preimage_members checkpoint witness_id))
