-- ===== src/Checkpoint/Cosigned/Binding.antt =====
-- What a cosignature binds: the bytes of `cosignature_bytes` (src/lib.rs).
use ahl_core.Prelude.{◌^◌, ◌≤◌, ◌≡◌, ◌↔◌, refl, sym, ◌∙◌, Option, some, List, Str, codes, str_eq}
use ahl_core.Error.{ok}
use ahl_core.Json.{Json, last_member, BuildsObjects, IsCanonical}
use ahl_core.Tree.{str_member}
use ahl_core.Closure.{u64_member}
use ahl_core.Checkpoint.Cosigned.{
  CosignedCheckpoint, project, object_members, cosigned_object, preimage_members, cosignature_bytes,
}
use ahl_core.Checkpoint.Cosigned.Projected.{HasMembers, project_iff}

same_value {ℓ} : {A : Type ℓ} {o p : Option A} {x y : A} → o ≡ some x → p ≡ some y → x ≡ y → o ≡ p
same_value e f h = e ∙ rw h refl ∙ sym f

value_same {ℓ} : {A : Type ℓ} {o p : Option A} {x y : A} → o ≡ some x → p ≡ some y → o ≡ p → x ≡ y
value_same e f h = cc

module _ (json : Json) where
  open json use {Value, get, string, number, object, jcs}

  -- The six members read the same, whatever else the two objects carry.
  pub record IsSameCosigned (a b : Value) : Type 0 where
    pub log_id : str_member json (get a (codes "log_id")) ≡ str_member json (get b (codes "log_id"))
    pub tree_size :
        u64_member json (get a (codes "tree_size")) ≡ u64_member json (get b (codes "tree_size"))
    pub root_hash :
        str_member json (get a (codes "root_hash")) ≡ str_member json (get b (codes "root_hash"))
    pub checkpoint_time :
        str_member json (get a (codes "checkpoint_time"))
        ≡ str_member json (get b (codes "checkpoint_time"))
    pub key_id : str_member json (get a (codes "key_id")) ≡ str_member json (get b (codes "key_id"))
    pub signature :
        str_member json (get a (codes "signature")) ≡ str_member json (get b (codes "signature"))

  -- The projections agree in each field.
  record IsSameProjection (c d : CosignedCheckpoint) : Type 0 where
    log_id : c.log_id ≡ d.log_id
    tree_size : c.tree_size ≡ d.tree_size
    root_hash : c.root_hash ≡ d.root_hash
    checkpoint_time : c.checkpoint_time ≡ d.checkpoint_time
    key_id : c.key_id ≡ d.key_id
    signature : c.signature ≡ d.signature

  module _ (builds : BuildsObjects json) (laws : IsCanonical json) where
    jcs-object :
        (ms ns : List (Str × Value)) (key : Str) {v w : Value}
        → jcs (object ms) ≡ jcs (object ns)
        → last_member key ms ≡ some v
        → last_member key ns ≡ some w
        → jcs v ≡ jcs w
    jcs-object ms ns key e here there =
        laws.jcs-get (object ms) (object ns) key _ _ e (builds ms key ∙ here)
          (builds ns key ∙ there)

    text_same :
        (ms ns : List (Str × Value)) (key : Str) {s t : Str}
        → jcs (object ms) ≡ jcs (object ns)
        → last_member key ms ≡ some (string s)
        → last_member key ns ≡ some (string t)
        → s ≡ t
    text_same ms ns key e here there = laws.jcs-string _ _ (jcs-object ms ns key e here there)

    cosigned_object-jcs :
        (c d : CosignedCheckpoint)
        → c.tree_size ≤ 2 ^ 53
        → d.tree_size ≤ 2 ^ 53
        → jcs (cosigned_object json c) ≡ jcs (cosigned_object json d)
        → IsSameProjection c d
    unfolding cosigned_object last_member str_eq
    cosigned_object-jcs c d small small' e =
        let ms = object_members json c in
        let ns = object_members json d in
        record {
          log_id = text_same ms ns (codes "log_id") e refl refl;
          tree_size =
              laws.jcs-number _ _ small small' (jcs-object ms ns (codes "tree_size") e refl refl);
          root_hash = text_same ms ns (codes "root_hash") e refl refl;
          checkpoint_time = text_same ms ns (codes "checkpoint_time") e refl refl;
          key_id = text_same ms ns (codes "key_id") e refl refl;
          signature = text_same ms ns (codes "signature") e refl refl;
        }

    cosignature_bytes-parts :
        (c d : CosignedCheckpoint) (w v : Str)
        → cosignature_bytes json c w ≡ cosignature_bytes json d v
        → (jcs (cosigned_object json c) ≡ jcs (cosigned_object json d)) × (w ≡ v)
    unfolding cosignature_bytes last_member str_eq
    cosignature_bytes-parts c d w v e =
        let ms = preimage_members json c w in
        let ns = preimage_members json d v in
        (
          jcs-object ms ns (codes "checkpoint") e refl refl,
          text_same ms ns (codes "witness_id") e refl refl,
        )

    same_projection :
        (a b : Value) (c d : CosignedCheckpoint)
        → HasMembers json a c
        → HasMembers json b d
        → IsSameProjection c d ↔ IsSameCosigned a b
    same_projection a b c d left right = (
      λ s. record {
        log_id = same_value left.log_id right.log_id s.log_id;
        tree_size = same_value left.tree_size right.tree_size s.tree_size;
        root_hash = same_value left.root_hash right.root_hash s.root_hash;
        checkpoint_time = same_value left.checkpoint_time right.checkpoint_time s.checkpoint_time;
        key_id = same_value left.key_id right.key_id s.key_id;
        signature = same_value left.signature right.signature s.signature;
      },
      λ s. record {
        log_id = value_same left.log_id right.log_id s.log_id;
        tree_size = value_same left.tree_size right.tree_size s.tree_size;
        root_hash = value_same left.root_hash right.root_hash s.root_hash;
        checkpoint_time = value_same left.checkpoint_time right.checkpoint_time s.checkpoint_time;
        key_id = value_same left.key_id right.key_id s.key_id;
        signature = value_same left.signature right.signature s.signature;
      },
    )

    cosignature_bytes_cong :
        (c d : CosignedCheckpoint) (w : Str)
        → IsSameProjection c d
        → cosignature_bytes json c w ≡ cosignature_bytes json d w
    unfolding cosignature_bytes cosigned_object
    cosignature_bytes_cong c d w s =
        rw (s.log_id, s.tree_size, s.root_hash, s.checkpoint_time, s.key_id, s.signature) refl

    -- Where `json!` builds objects and JCS writes values as documented, and neither tree size is above
    -- 2 ^ 53, the bytes signed for two accepted checkpoints by two witnesses are equal exactly when the
    -- six members of the checkpoints read the same and the witness ids are equal.
    pub cosignature_bytes_binds :
        (a b : Value) (c d : CosignedCheckpoint) (w v : Str)
        → project json a ≡ ok c
        → project json b ≡ ok d
        → c.tree_size ≤ 2 ^ 53
        → d.tree_size ≤ 2 ^ 53
        → (cosignature_bytes json c w ≡ cosignature_bytes json d v) ↔ IsSameCosigned a b × (w ≡ v)
    cosignature_bytes_binds a b c d w v left right small small' =
        let left' = ((project_iff json builds a c).0 left).has_members in
        let right' = ((project_iff json builds b d).0 right).has_members in
        let reads = same_projection a b c d left' right' in
        (
          λ e.
              let (objects, ids) = cosignature_bytes-parts c d w v e in
              (reads.0 (cosigned_object-jcs c d small small' objects), ids),
          λ (same, ids). rw ids (cosignature_bytes_cong c d v (reads.1 same)),
        )
