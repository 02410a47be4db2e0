-- ===== src/Base64.antt =====
-- What ahl-core takes from the crate `base64`, the engine `STANDARD`, which is not part of the
-- repository, as a parameter; and the helper `strip` of src/lib.rs on the prefix of such a text.
pub mod Toy
use ahl_core.Prelude.{
  ℕ, zero, suc, ◌≡◌, Bool, true, false, ◌&&◌, Option, none, some, List, [], ◌∷◌, Bytes, Str,
  strip_prefix?, leb, all, if◌then◌else◌,
}
use ahl_core.Prelude.Words.{is_octet}
use ahl_core.Error.{missing_prefix, Result, ok, err, AhlResult, ok_or}

-- The error is the text that it renders to.
pub record Base64 : Type 0 where
  pub encode : Bytes → Str
  pub decode : Str → Result Str Bytes

-- The engine `STANDARD` is documented to decode what it encodes, to refuse trailing bits and
-- padding other than the canonical ones, and so to decode one text only to given bytes.
pub record IsStandard (b64 : Base64) : Type 0 where
  pub decode-encode :
      (bytes : Bytes) → all is_octet bytes ≡ true → b64.decode (b64.encode bytes) ≡ ok bytes
  pub canonical : (s : Str) (bytes : Bytes) → b64.decode s ≡ ok bytes → b64.encode bytes ≡ s
  pub octets : (s : Str) (bytes : Bytes) → b64.decode s ≡ ok bytes → all is_octet bytes ≡ true

-- `value.chars().take(n)` on UTF-8, whose continuation bytes are 128 to 191.
unfoldable pub take_chars : ℕ → Str → Str
take_chars n [] = []
take_chars zero (b ∷ s) =
    let more = take_chars zero s in if leb 128 b && leb b 191 then b ∷ more else []
take_chars (suc n) (b ∷ s) =
    let same = take_chars (suc n) s in
    let next = take_chars n s in if leb 128 b && leb b 191 then b ∷ same else b ∷ next

unfoldable pub strip : Str → Str → AhlResult Str
strip value expected =
    ok_or (strip_prefix? value expected) (missing_prefix expected (take_chars 24 value))
