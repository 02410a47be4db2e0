-- ===== src/Base64/Toy.antt =====
-- An engine that meets the assumptions of this library: the text is the bytes. It serves the tests.
use ahl_core.Prelude.{◌≡◌, refl, true, Bytes, codes, all, arith, if◌then◌else◌}
use ahl_core.Prelude.Words.{is_octet}
use ahl_core.Error.{ok, err}
use ahl_core.Base64.{Base64, IsStandard}

abbrev pub toy_base64 : Base64
toy_base64 = record {
  encode = λ bytes. bytes;
  decode = λ s. if all is_octet s then ok s else err (codes "invalid byte");
}

decoded : (s bytes : Bytes) → toy_base64.decode s ≡ ok bytes → (bytes ≡ s) × (all is_octet s ≡ true)
decoded s bytes h = ground arith

pub toy_base64-IsStandard : IsStandard toy_base64
toy_base64-IsStandard = record {
  decode-encode = λ bytes h. rw h refl;
  canonical = λ s bytes h. (decoded s bytes h).0;
  octets = λ s bytes h. let (same, octets) = decoded s bytes h in rw same octets;
}
