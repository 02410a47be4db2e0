-- ===== src/RangeProof/Canonical.antt =====
-- `encode` and `decode` of src/range_proof.rs: one text for each range proof.
use ahl_core.Prelude.{
  ◌≡◌, ◌↔◌, refl, sym, ap, ◌∙◌, ◌++◌, Str, codes, strip_prefix?, strip_prefix?-append,
  strip_prefix?-eq_some,
}
use ahl_core.Error.{
  missing_prefix, base64, ok, AhlResult, ◌>>=◌, map_err, bind-eq-ok, ok_or-eq-ok, map_err-eq-ok,
}
use ahl_core.Base64.{Base64, IsStandard, strip, take_chars}
use ahl_core.RangeProof.{RangeProof}
use ahl_core.RangeProof.Codec.{to_bytes, parse_bytes, encode, decode}
use ahl_core.RangeProof.Slices.{IsWellFormed}
use ahl_core.RangeProof.Frame.{parse_bytes-framed, parse_bytes-ok}
use ahl_core.RangeProof.Decoded.{to_bytes-parsed, parsed-IsWellFormed}
use ahl_core.RangeProof.Encoded.{to_bytes-IsFramed, parsed-to_bytes, to_bytes_octets}

strip-prefixed : (p s : Str) → strip (p ++ s) p ≡ ok s
unfolding strip
strip-prefixed p s = rw (strip_prefix?-append p s) refl

strip-ok : (value p s : Str) → strip value p ≡ ok s → value ≡ p ++ s
unfolding strip
strip-ok value p s e =
    strip_prefix?-eq_some p value s
      (ok_or-eq-ok (strip_prefix? value p) (missing_prefix p (take_chars 24 value)) e)

module _ (b64 : Base64) (laws : IsStandard b64) where
  abbrev after_strip : Str → AhlResult RangeProof
  after_strip encoded = map_err base64 (b64.decode encoded) >>= parse_bytes

  -- With an engine that decodes base64 canonically, a text decodes to a range proof exactly when
  -- the proof is well formed (its numbers fit 64 bits, its nodes have 32 bytes and their number
  -- fits 32 bits) and the text is what `encode` renders: no other text is read as that proof.
  pub decode_iff :
      (value : Str) (proof : RangeProof)
      → (decode b64 value ≡ ok proof) ↔ (IsWellFormed proof × (value ≡ encode b64 proof))
  unfolding decode encode
  decode_iff value proof = (
    λ e.
        let (encoded, e1, r1) = bind-eq-ok after_strip (strip value (codes "base64:")) e in
        let (bytes, e2, r2) = bind-eq-ok parse_bytes (map_err base64 (b64.decode encoded)) r1 in
        let e3 = map_err-eq-ok base64 (b64.decode encoded) e2 in
        let (f, same) = parse_bytes-ok bytes proof r2 in
        let octets = laws.octets encoded bytes e3 in
        (
          rw same (parsed-IsWellFormed bytes f octets),
          strip-ok value (codes "base64:") encoded e1
              ∙ ap (λ s. codes "base64:" ++ s)
                  (sym (laws.canonical encoded bytes e3)
                    ∙ ap b64.encode (sym (ap to_bytes same ∙ to_bytes-parsed bytes f octets))),
        ),
    λ (w, e).
        rw
          (
            e,
            strip-prefixed (codes "base64:") (b64.encode (to_bytes proof)),
            laws.decode-encode (to_bytes proof) (to_bytes_octets proof w),
          )
          (parse_bytes-framed (to_bytes proof) (to_bytes-IsFramed proof w)
            ∙ ap ok (parsed-to_bytes proof w)),
  )
