-- ===== src/Envelope/Sentence.antt =====
-- The outcome of `check_envelope` (src/lib.rs) as the sentence of spec section 2.1: the conjunction
-- of all entries, where a signature that fails comes before a key that is not resolved.
use ahl_core.Prelude.{
  ◌≡◌, refl, ap, ◌∙◌, Bool, true, false, Option, none, some, List, [], ◌∷◌, Bytes, Str, codes, any,
  map, if◌then◌else◌, arith,
}
use ahl_core.Error.{ok, AhlResult, ◌>>=◌}
use ahl_core.Json.{Json}
use ahl_core.Base64.{Base64}
use ahl_core.Tree.{field_str}
use ahl_core.Closure.{payload_of, array_member}
use ahl_core.Envelope.{
  Ed25519, EnvelopeCheck, signature_invalid, remembered, get_or_insert, decode_pubkey,
  verify_signature, sweep, check_envelope,
}

-- What one entry says.
pub data Judgement : Type 0 where
  verifies fails : Judgement
  unresolved : Str → Judgement

abbrev pub is_failing : Judgement → Bool
is_failing fails = true
is_failing _ = false

abbrev judged_as : Bool → Judgement
judged_as true = verifies
judged_as false = fails

-- The first key that resolved to nothing.
abbrev pub first_unresolved : List Judgement → Option Str
first_unresolved [] = none
first_unresolved (unresolved key_id ∷ rest) = some key_id
first_unresolved (_ ∷ rest) = first_unresolved rest

abbrev pub sentence : List Judgement → EnvelopeCheck
sentence [] = signature_invalid
sentence (j ∷ js) =
    if any is_failing (j ∷ js) then signature_invalid else remembered (first_unresolved (j ∷ js))

-- What the loop makes of the rest, with a key it has remembered.
abbrev with_unresolved : Option Str → List Judgement → Option Str
with_unresolved none js = first_unresolved js
with_unresolved (some key_id) js = some key_id

skip :
    (o : Option Str) (l : List Judgement) → with_unresolved o l ≡ with_unresolved o (verifies ∷ l)
skip none l = refl
skip (some key_id) l = refl

insert :
    (o : Option Str) (k : Str) (l : List Judgement)
    → with_unresolved (get_or_insert o k) l ≡ with_unresolved o (unresolved k ∷ l)
insert none k l = refl
insert (some first) k l = refl

cons_parts {ℓ} :
    {A : Type ℓ} (a b : A) (as' bs : List A)
    → Path (List A) (a ∷ as') (b ∷ bs)
    → (a ≡ b) × (as' ≡ bs)
cons_parts a b as' bs e = (cc, cc)

module _ (b64 : Base64) (ed : Ed25519) (json : Json) (resolve : Str → Option Str) where
  open json use {Value, get, jcs}

  -- One entry on its own.
  unfoldable pub judge : Bytes → Value → AhlResult Judgement
  judge msg entry = field_str json entry (codes "key_id") >>= λ key_id.
      field_str json entry (codes "sig") >>= λ sig. elim (resolve key_id) [
        | none ↦ ok (unresolved key_id)
        | some pubkey ↦ decode_pubkey b64 ed pubkey >>= λ key.
            verify_signature b64 ed key msg sig >>= λ valid. ok (judged_as valid)
      ]

  -- Every entry can be judged: it has its members, and its key and signature decode.
  abbrev pub Judged : Bytes → List Value → List Judgement → Type 0
  Judged msg entries js = map (judge msg) entries ≡ map (λ j. ok j) js

  abbrev swept : Bytes → Option Str → List Value → AhlResult EnvelopeCheck
  swept = sweep b64 ed json resolve

  abbrev pub after : Bytes → Option Str → List Value → Judgement → AhlResult EnvelopeCheck
  after msg remembered_key rest verifies = swept msg remembered_key rest
  after msg remembered_key rest fails = ok signature_invalid
  after msg remembered_key rest (unresolved key_id) =
      swept msg (get_or_insert remembered_key key_id) rest

  -- A turn of the loop judges its entry.
  pub sweep-judge :
      (msg : Bytes) (remembered_key : Option Str) (entry : Value) (rest : List Value)
      → swept msg remembered_key (entry ∷ rest)
        ≡ (judge msg entry >>= after msg remembered_key rest)
  unfolding sweep judge
  sweep-judge msg remembered_key entry rest = ground arith

  sweep-sentence :
      (msg : Bytes) (remembered_key : Option Str) (entries : List Value) (js : List Judgement)
      → Judged msg entries js
      → swept msg remembered_key entries
        ≡ ok (
            if any is_failing js
            then signature_invalid
            else remembered (with_unresolved remembered_key js))
  unfolding sweep
  sweep-sentence msg none [] [] judged = refl
  sweep-sentence msg (some key_id) [] [] judged = refl
  sweep-sentence msg u [] (j ∷ js) judged = cc
  sweep-sentence msg u (entry ∷ rest) [] judged = cc
  sweep-sentence msg u (entry ∷ rest) (j ∷ js) judged =
      let (e, later) =
        cons_parts (judge msg entry) (ok j) (map (judge msg) rest) (map (λ k. ok k) js) judged in
      sweep-judge msg u entry rest ∙ rw e (by_judgement j (λ v. sweep-sentence msg v rest js later))
    where
      answer : List Judgement → Option Str → AhlResult EnvelopeCheck
      answer l o = ok (if any is_failing l then signature_invalid else remembered o)

      by_judgement :
          (k : Judgement)
          → ((v : Option Str) → swept msg v rest ≡ answer js (with_unresolved v js))
          → after msg u rest k ≡ answer (k ∷ js) (with_unresolved u (k ∷ js))
      by_judgement verifies ih = ih u ∙ ap (answer js) (skip u js)
      by_judgement fails ih = refl
      by_judgement (unresolved key_id) ih =
          ih (get_or_insert u key_id) ∙ ap (answer js) (insert u key_id js)

  -- When every signature entry of an envelope can be judged, `check_envelope` returns
  -- `SignatureInvalid` where there is no entry or one resolves and does not verify, whatever the
  -- order; else `KeyNotResolved` with the first key that resolved to nothing, where there is one;
  -- and else `Verified`.
  pub check_envelope-eq-sentence :
      (env payload : Value) (entries : List Value) (js : List Judgement)
      → payload_of json env ≡ some payload
      → array_member json (get env (codes "signatures")) ≡ some entries
      → Judged (jcs payload) entries js
      → check_envelope b64 ed json resolve env ≡ ok (sentence js)
  unfolding check_envelope
  check_envelope-eq-sentence env payload [] [] e1 e2 judged = rw (e1, e2) refl
  check_envelope-eq-sentence env payload [] (j ∷ js) e1 e2 judged = cc
  check_envelope-eq-sentence env payload (entry ∷ rest) [] e1 e2 judged = cc
  check_envelope-eq-sentence env payload (entry ∷ rest) (j ∷ js) e1 e2 judged =
      rw (e1, e2) (sweep-sentence (jcs payload) none (entry ∷ rest) (j ∷ js) judged)
