-- ===== src/Envelope/Tests.antt =====
-- Envelopes of src/lib.rs with one and with two signatures, and the theorems on them.
use ahl_core.Prelude.{
  ◌≡◌, ◌↔◌, refl, true, Option, none, some, [], ◌∷◌, ◌++◌, Bytes, Str, codes, str_eq, strip_prefix?,
  if◌then◌else◌,
}
use ahl_core.Error.{ok}
use ahl_core.Json.Toy.{
  Tree, t_str, t_obj, t_arr, t_end, t_item, f_end, f_item, field, items, toy_json,
}
use ahl_core.Base64.{strip}
use ahl_core.Base64.Toy.{toy_base64}
use ahl_core.Tree.{field_str}
use ahl_core.Closure.{payload_of}
use ahl_core.Envelope.{
  Ed25519, signature_invalid, decode_pubkey, verify_signature, check_envelope, verify_envelope,
}
use ahl_core.Envelope.Sentence.{
  verifies, fails, unresolved, sentence, judge, check_envelope-eq-sentence,
}
use ahl_core.Envelope.Signed.{IsSigned, verify_envelope_iff}

-- A signature is the key twice.
abbrev toy_ed25519 : Ed25519
toy_ed25519 = record {
  VerifyingKey = Bytes;
  as_bytes = λ key. key;
  from_bytes = λ bytes. ok bytes;
  verifies = λ key msg raw. str_eq (key ++ key) raw;
}

abbrev key_bytes : Bytes
key_bytes = codes "0123456789abcdef0123456789abcdef"

abbrev resolve : Str → Option Str
resolve key_id = if str_eq key_id (codes "k") then some (codes "base64:" ++ key_bytes) else none

abbrev entry : Str → Bytes → Tree
entry key_id raw = t_obj (
    f_item (codes "key_id") (t_str key_id)
      (f_item (codes "sig") (t_str (codes "base64:" ++ raw)) f_end))

abbrev good : Tree
good = entry (codes "k") (key_bytes ++ key_bytes)

abbrev forged : Tree
forged = entry (codes "k") (key_bytes ++ codes "00000000000000000000000000000000")

abbrev stranger : Tree
stranger = entry (codes "s") []

abbrev payload : Tree
payload = t_obj f_end

abbrev signed : Tree
signed = t_obj (
    f_item (codes "payload") payload
      (f_item (codes "signatures") (t_arr (t_item good t_end)) f_end))

-- The unresolved key comes first, the forgery last.
abbrev disputed : Tree
disputed = t_obj (
    f_item (codes "payload") payload (
      f_item (codes "signatures") (t_arr (t_item stranger (t_item good (t_item forged t_end))))
        f_end))

check_envelope-eq-sentence_example :
    check_envelope toy_base64 toy_ed25519 toy_json resolve disputed
    ≡ ok (sentence (unresolved (codes "s") ∷ verifies ∷ fails ∷ []))
unfolding judge field_str field str_eq strip strip_prefix? decode_pubkey verify_signature payload_of
    items
check_envelope-eq-sentence_example =
    check_envelope-eq-sentence toy_base64 toy_ed25519 toy_json resolve disputed payload
      (stranger ∷ good ∷ forged ∷ []) (unresolved (codes "s") ∷ verifies ∷ fails ∷ []) refl refl
      refl

disputed-invalid : sentence (unresolved (codes "s") ∷ verifies ∷ fails ∷ []) ≡ signature_invalid
disputed-invalid = refl

verify_envelope_iff_example :
    (verify_envelope toy_base64 toy_ed25519 toy_json resolve signed ≡ ok true)
    ↔ IsSigned toy_base64 toy_ed25519 toy_json resolve signed
verify_envelope_iff_example = verify_envelope_iff toy_base64 toy_ed25519 toy_json resolve signed
