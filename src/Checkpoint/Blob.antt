-- ===== src/Checkpoint/Blob.antt =====
-- The 98-byte blob of src/lib.rs: what it holds, and that it binds what it holds.
use ahl_core.Prelude.{
  ℕ, ◌≤◌, ◌≡◌, refl, sym, ap, ◌∙◌, Bool, true, ◌&&◌, Option, none, some, ◌++◌, Bytes, Str, codes,
  str_eq, str_eq_refl, strip_prefix?, length, length-append, take, append_parts, all, ◌==◌, ==_iff,
  arith,
}
use ahl_core.Prelude.Words.{
  is_octet, to_le, from_le, from_le-to_le, length-to_le, all-append, all-to_le,
}
use ahl_core.Error.{ok, err, AhlResult, ◌>>=◌, ok_or, ok_or-eq-ok}
use ahl_core.Json.{Json}
use ahl_core.Merkle.{Hash}
use ahl_core.Bitemporal.{Clock}
use ahl_core.RangeProof.{u64_max}
use ahl_core.Tree.{str_member}
use ahl_core.Closure.{u64_member}
use ahl_core.Checkpoint.{
  UnixTime, blob_magic, atl_checkpoint_blob, atl_checkpoint_time_nanos, unprefixed, of_length,
  digest_of, atl_checkpoint_blob_from_json,
}

to_le_injective : (a b : ℕ) → a ≤ u64_max → b ≤ u64_max → to_le 8 a ≡ to_le 8 b → a ≡ b
to_le_injective a b h k e =
    sym (from_le-to_le 8 a (omega (arith, h)))
    ∙ (ap from_le e ∙ from_le-to_le 8 b (omega (arith, k)))

-- A blob is the blob of one checkpoint only: with an origin of 32 bytes and numbers of 64 bits, two
-- checkpoints with one blob have the same origin, tree size, timestamp and root.
pub atl_checkpoint_blob_injective :
    (origin origin' root root' : Hash) (size size' time time' : ℕ)
    → length origin ≡ 32
    → length origin' ≡ 32
    → size ≤ u64_max
    → size' ≤ u64_max
    → time ≤ u64_max
    → time' ≤ u64_max
    → atl_checkpoint_blob origin size time root ≡ atl_checkpoint_blob origin' size' time' root'
    → (origin ≡ origin') × (size ≡ size') × (time ≡ time') × (root ≡ root')
unfolding atl_checkpoint_blob
atl_checkpoint_blob_injective origin origin' root root' size size' time time' o o' s s' t t' e =
    let (_, after_magic) =
      append_parts blob_magic blob_magic (origin ++ (to_le 8 size ++ (to_le 8 time ++ root)))
        (origin' ++ (to_le 8 size' ++ (to_le 8 time' ++ root'))) refl e in
    let (same_origin, after_origin) =
      append_parts origin origin' (to_le 8 size ++ (to_le 8 time ++ root))
        (to_le 8 size' ++ (to_le 8 time' ++ root')) (o ∙ sym o') after_magic in
    let (same_size, after_size) =
      append_parts (to_le 8 size) (to_le 8 size') (to_le 8 time ++ root) (to_le 8 time' ++ root')
        (length-to_le 8 size ∙ sym (length-to_le 8 size')) after_origin in
    let (same_time, same_root) =
      append_parts (to_le 8 time) (to_le 8 time') root root'
        (length-to_le 8 time ∙ sym (length-to_le 8 time')) after_size in
    (
      same_origin,
      to_le_injective size size' s s' same_size,
      to_le_injective time time' t t' same_time,
      same_root,
    )

-- What is carried as a blob: its length, its octets and its magic.
abbrev pub is_blob : Bytes → Bool
is_blob bytes = (length bytes == 98) && (all is_octet bytes && str_eq (take 18 bytes) blob_magic)

abbrev is_digest : Hash → Bool
is_digest digest = (length digest == 32) && all is_octet digest

octets_append :
    (xs ys : Bytes)
    → all is_octet xs ≡ true
    → all is_octet ys ≡ true
    → all is_octet (xs ++ ys) ≡ true
octets_append xs ys p q = all-append xs ys ∙ rw (p, q) refl

all_three : (a b c : Bool) → a ≡ true → b ≡ true → c ≡ true → a && (b && c) ≡ true
all_three a b c p q r = rw (p, q, r) refl

blob_fits :
    (origin root : Hash) (size time : ℕ)
    → is_digest origin ≡ true
    → is_digest root ≡ true
    → is_blob (atl_checkpoint_blob origin size time root) ≡ true
unfolding atl_checkpoint_blob
blob_fits origin root size time o r =
    let long : length (blob_magic ++ (origin ++ (to_le 8 size ++ (to_le 8 time ++ root)))) ≡ 98 =
      omega (
        arith,
        length-append origin (to_le 8 size ++ (to_le 8 time ++ root)),
        length-append (to_le 8 size) (to_le 8 time ++ root),
        length-append (to_le 8 time) root,
        length-to_le 8 size,
        length-to_le 8 time,
        digest_size origin o,
        digest_size root r,
      ) in
    let octets =
      octets_append origin (to_le 8 size ++ (to_le 8 time ++ root)) (digest_octets origin o) (
        octets_append (to_le 8 size) (to_le 8 time ++ root) (all-to_le 8 size)
          (octets_append (to_le 8 time) root (all-to_le 8 time) (digest_octets root r))) in
    let whole = blob_magic ++ (origin ++ (to_le 8 size ++ (to_le 8 time ++ root))) in
    all_three (length whole == 98) (all is_octet whole) (str_eq (take 18 whole) blob_magic)
      ((==_iff (length whole) 98).1 long) octets (str_eq_refl blob_magic)
  where
    digest_size : (d : Hash) → is_digest d ≡ true → length d ≡ 32
    digest_size d h = ground arith

    digest_octets : (d : Hash) → is_digest d ≡ true → all is_octet d ≡ true
    digest_octets d h = ground arith

abbrev fits_blob : AhlResult Bytes → Bool
fits_blob (ok blob) = is_blob blob
fits_blob (err _) = true

bind_fits {ℓ} :
    {A : Type ℓ} (r : AhlResult A) (rest : A → AhlResult Bytes)
    → ((a : A) → r ≡ ok a → fits_blob (rest a) ≡ true)
    → fits_blob (r >>= rest) ≡ true
bind_fits (ok a) rest k = k a refl
bind_fits (err e) rest k = refl

module _ (json : Json) (clock : Clock) (unix : UnixTime clock) (unhex : Str → Option Bytes)
    (octets : (s : Str) (bytes : Bytes) → unhex s ≡ some bytes → all is_octet bytes ≡ true) where
  open json use {Value, get}

  digest_fits :
      (value : Str) (digest : Hash)
      → digest_of json clock unix unhex value ≡ some digest
      → is_digest digest ≡ true
  unfolding digest_of
  digest_fits value digest e =
      by_bytes (unhex (unprefixed (strip_prefix? value (codes "sha256:")) value)) (octets _) e
    where
      by_bytes :
          (o : Option Bytes)
          → ((bytes : Bytes) → o ≡ some bytes → all is_octet bytes ≡ true)
          → of_length 32 o ≡ some digest
          → is_digest digest ≡ true
      by_bytes none h p = cc
      by_bytes (some bytes) h p = let all_octets = h bytes refl in ground arith

  fits_from_json :
      (checkpoint : Value)
      → fits_blob (atl_checkpoint_blob_from_json json clock unix unhex checkpoint) ≡ true
  unfolding atl_checkpoint_blob_from_json
  fits_from_json checkpoint =
      bind_fits (ok_or (str_member json (get checkpoint (codes "log_id"))) _) _ (λ log_id e1.
        bind_fits (ok_or (digest_of json clock unix unhex log_id) _) _ (λ origin e2.
          bind_fits (ok_or (u64_member json (get checkpoint (codes "tree_size"))) _) _ (λ size e3.
            bind_fits (ok_or (str_member json (get checkpoint (codes "checkpoint_time"))) _) _
              (λ time e4. bind_fits (atl_checkpoint_time_nanos json clock unix time) _ (λ nanos e5.
                bind_fits (ok_or (str_member json (get checkpoint (codes "root_hash"))) _) _
                  (λ root_hash e6.
                    bind_fits (ok_or (digest_of json clock unix unhex root_hash) _) _ (λ root e7.
                      blob_fits origin root size nanos
                        (digest_fits log_id origin
                          (ok_or-eq-ok (digest_of json clock unix unhex log_id) _ e2))
                        (digest_fits root_hash root
                          (ok_or-eq-ok (digest_of json clock unix unhex root_hash) _ e7)))))))))

  -- Every blob that is assembled is one: 98 octets that begin with the magic.
  pub from_json_fits :
      (checkpoint : Value) (blob : Bytes)
      → atl_checkpoint_blob_from_json json clock unix unhex checkpoint ≡ ok blob
      → is_blob blob ≡ true
  from_json_fits checkpoint blob e = sym (ap fits_blob e) ∙ fits_from_json checkpoint
