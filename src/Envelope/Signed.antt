-- ===== src/Envelope/Signed.antt =====
-- The envelopes that `verify_envelope` (src/lib.rs) accepts.
use ahl_core.Prelude.{
  ◌≡◌, ◌↔◌, refl, sym, ap, ◌∙◌, Bool, true, false, ◌&&◌, Option, none, some, List, [], ◌∷◌, Bytes,
  Str, codes, all, arith,
}
use ahl_core.Error.{
  field, lit, ok, err, AhlResult, ◌>>=◌, ok_or, bind-eq-ok, ok_or-eq-ok, ok-injective,
}
use ahl_core.Json.{Json}
use ahl_core.Base64.{Base64}
use ahl_core.Closure.{payload_of, array_member}
use ahl_core.Envelope.{
  Ed25519, EnvelopeCheck, verified, signature_invalid, key_not_resolved, is_verified, sweep,
  sweep_some, check_envelope, verify_envelope,
}
use ahl_core.Envelope.Sentence.{Judgement, verifies, fails, unresolved, judge, after, sweep-judge}

abbrev is_verifying : AhlResult Judgement → Bool
is_verifying (ok verifies) = true
is_verifying _ = false

module _ (b64 : Base64) (ed : Ed25519) (json : Json) (resolve : Str → Option Str) where
  open json use {Value, get, jcs}

  abbrev pub entry_verifies : Bytes → Value → Bool
  entry_verifies msg entry = is_verifying (judge b64 ed json resolve msg entry)

  -- An AHL statement: a payload under at least one signature, all of which verify over it.
  pub record IsSigned (env : Value) : Type 0 where
    pub payload : Value
    pub first : Value
    pub others : List Value
    pub carries : payload_of json env ≡ some payload
    pub signatures : array_member json (get env (codes "signatures")) ≡ some (first ∷ others)
    pub each : all (entry_verifies (jcs payload)) (first ∷ others) ≡ true

  abbrev swept : Bytes → Option Str → List Value → AhlResult EnvelopeCheck
  swept = sweep b64 ed json resolve

  sweep-verified :
      (msg : Bytes) (entries : List Value)
      → all (entry_verifies msg) entries ≡ true
      → swept msg none entries ≡ ok verified
  unfolding sweep
  sweep-verified msg [] h = refl
  sweep-verified msg (entry ∷ rest) h =
      let later = sweep-verified msg rest (ground arith) in
      sweep-judge b64 ed json resolve msg none entry rest
      ∙ by_judgement (judge b64 ed json resolve msg entry) (ground arith) later
    where
      by_judgement :
          (r : AhlResult Judgement)
          → is_verifying r ≡ true
          → swept msg none rest ≡ ok verified
          → (r >>= after b64 ed json resolve msg none rest) ≡ ok verified
      by_judgement (ok verifies) e later = later
      by_judgement (ok fails) e later = cc
      by_judgement (ok (unresolved key_id)) e later = cc
      by_judgement (err failure) e later = cc

  some-not_verified :
      (msg : Bytes) (key_id : Str) (entries : List Value)
      → swept msg (some key_id) entries ≡ ok verified
      → ⊥
  unfolding sweep
  some-not_verified msg key_id [] e = cc
  some-not_verified msg key_id (entry ∷ rest) e =
      by_judgement (judge b64 ed json resolve msg entry) (some-not_verified msg key_id rest)
        (sym (sweep-judge b64 ed json resolve msg (some key_id) entry rest) ∙ e)
    where
      by_judgement :
          (r : AhlResult Judgement)
          → (swept msg (some key_id) rest ≡ ok verified → ⊥)
          → (r >>= after b64 ed json resolve msg (some key_id) rest) ≡ ok verified
          → ⊥
      by_judgement (ok verifies) later p = later p
      by_judgement (ok fails) later p = cc
      by_judgement (ok (unresolved _)) later p = later p
      by_judgement (err failure) later p = cc

  verified-sweep :
      (msg : Bytes) (entries : List Value)
      → swept msg none entries ≡ ok verified
      → all (entry_verifies msg) entries ≡ true
  verified-sweep msg [] e = refl
  verified-sweep msg (entry ∷ rest) e =
      by_judgement (judge b64 ed json resolve msg entry) (verified-sweep msg rest)
        (sym (sweep-judge b64 ed json resolve msg none entry rest) ∙ e)
    where
      by_judgement :
          (r : AhlResult Judgement)
          → (swept msg none rest ≡ ok verified → all (entry_verifies msg) rest ≡ true)
          → (r >>= after b64 ed json resolve msg none rest) ≡ ok verified
          → (is_verifying r && all (entry_verifies msg) rest) ≡ true
      by_judgement (ok verifies) later p = later p
      by_judgement (ok fails) later p = cc
      by_judgement (ok (unresolved key_id)) later p = absurd (some-not_verified msg key_id rest p)
      by_judgement (err failure) later p = cc

  abbrev check : Value → AhlResult EnvelopeCheck
  check = check_envelope b64 ed json resolve

  check-verified : (env : Value) → IsSigned env → check env ≡ ok verified
  unfolding check_envelope
  check-verified env s =
      rw (s.carries, s.signatures) (sweep-verified (jcs s.payload) (s.first ∷ s.others) s.each)

  abbrev with_payload : Value → Value → AhlResult EnvelopeCheck
  with_payload env payload =
      ok_or (array_member json (get env (codes "signatures"))) (field (lit (codes "signatures")))
      >>= λ signatures. sweep_some b64 ed json resolve (jcs payload) signatures

  verified-check : (env : Value) → check env ≡ ok verified → IsSigned env
  unfolding check_envelope
  verified-check env e =
      let (payload, e1, r1) =
        bind-eq-ok (with_payload env) (ok_or (payload_of json env) (field (lit (codes "payload"))))
          e in
      let (signatures, e2, r2) =
        bind-eq-ok (sweep_some b64 ed json resolve (jcs payload))
          (ok_or (array_member json (get env (codes "signatures")))
            (field (lit (codes "signatures"))))
          r1 in
      by_entries payload signatures
        (ok_or-eq-ok (payload_of json env) (field (lit (codes "payload"))) e1)
        (ok_or-eq-ok (array_member json (get env (codes "signatures")))
          (field (lit (codes "signatures"))) e2)
        r2
    where
      by_entries :
          (payload : Value) (signatures : List Value)
          → payload_of json env ≡ some payload
          → array_member json (get env (codes "signatures")) ≡ some signatures
          → sweep_some b64 ed json resolve (jcs payload) signatures ≡ ok verified
          → IsSigned env
      by_entries payload [] e1 e2 r = cc
      by_entries payload (first ∷ others) e1 e2 r = record {
        payload = payload;
        first = first;
        others = others;
        carries = e1;
        signatures = e2;
        each = verified-sweep (jcs payload) (first ∷ others) r;
      }

  only_verified : (c : EnvelopeCheck) → is_verified c ≡ true → c ≡ verified
  only_verified verified e = refl
  only_verified signature_invalid e = cc
  only_verified (key_not_resolved key_id) e = cc

  -- `verify_envelope` accepts an envelope exactly when it carries a payload object and at least one
  -- signature, and every signature entry names a key that resolves, decodes and verifies the entry's
  -- signature over the canonical payload.
  pub verify_envelope_iff :
      (env : Value) → (verify_envelope b64 ed json resolve env ≡ ok true) ↔ IsSigned env
  unfolding verify_envelope
  verify_envelope_iff env = (
    λ e.
        let (c, e1, r1) = bind-eq-ok (λ c. ok (is_verified c)) (check env) e in
        verified-check env
          (e1 ∙ ap (λ d. ok d) (only_verified c (ok-injective (is_verified c) true r1))),
    λ s. rw (check-verified env s) refl,
  )
