-- ===== src/RangeProof/Frame.antt =====
-- The checks of `decode` (src/range_proof.rs) on the decoded bytes, and the fields that it reads.
use ahl_core.Prelude.{
  ℕ, ◌+◌, ◌*◌, ◌/◌, ◌≤◌, ◌^◌, ◌-◌, ◌<◌, ◌≡◌, ◌↔◌, refl, sym, ap, ◌∙◌, true, false, some, Bytes,
  str_eq, str_eq→eq, str_eq_refl, length, take, drop, ltb, arith,
}
use ahl_core.Prelude.Words.{from_be}
use ahl_core.Error.{ok, ◌>>◌, then-eq-ok, ok-injective}
use ahl_core.RangeProof.{get_range, RangeProof}
use ahl_core.RangeProof.Codec.{
  range_proof_magic, header_len, read_be, has_magic, body_of, checked_mul, declares, chunks,
  parse_bytes, check_length, check_magic, check_count, fields_of,
}

pub get_range-fits :
    (bytes : Bytes) (lo width : ℕ)
    → lo + width ≤ length bytes
    → get_range bytes lo (lo + width) ≡ some (take width (drop lo bytes))
unfolding get_range
get_range-fits bytes lo width h =
    let size : lo + width - lo ≡ width = omega arith in rw size (ground arith)

pub read_be-fits :
    (bytes : Bytes) (at width : ℕ)
    → at + width ≤ length bytes
    → read_be bytes at width ≡ from_be (take width (drop at bytes))
unfolding read_be
read_be-fits bytes at width h = rw (read_be, get_range-fits bytes at width h) refl

pub body-fits : (bytes : Bytes) → header_len ≤ length bytes → body_of bytes ≡ drop header_len bytes
unfolding body_of
body-fits bytes h = ground arith

pub declares_iff :
    (count : ℕ) (body : Bytes)
    → count < 2 ^ 32
    → (declares count body ≡ true) ↔ (count * 32 ≡ length body)
unfolding declares checked_mul
declares_iff count body small = (λ h. ground arith, λ h. ground arith)

-- The fields of a header of full length.
abbrev pub parsed : Bytes → RangeProof
parsed bytes = record {
  tree_size = from_be (take 8 (drop 6 bytes));
  from_index = from_be (take 8 (drop 14 bytes));
  to_index = from_be (take 8 (drop 22 bytes));
  nodes = chunks (length (drop 34 bytes) / 32) (drop 34 bytes);
}

abbrev pub count_in : Bytes → ℕ
count_in bytes = from_be (take 4 (drop 30 bytes))

pub record IsFramed (bytes : Bytes) : Type 0 where
  pub long : 34 ≤ length bytes
  pub magic : take 6 bytes ≡ range_proof_magic
  pub declared : declares (count_in bytes) (drop 34 bytes) ≡ true

pub fields-parsed : (bytes : Bytes) → 34 ≤ length bytes → fields_of bytes ≡ parsed bytes
unfolding fields_of
fields-parsed bytes h =
    rw
      (
        read_be-fits bytes 6 8 (omega (arith, h)),
        read_be-fits bytes 14 8 (omega (arith, h)),
        read_be-fits bytes 22 8 (omega (arith, h)),
        body-fits bytes h,
      )
      refl

pub magic-fits :
    (bytes : Bytes) → 34 ≤ length bytes → has_magic bytes ≡ str_eq (take 6 bytes) range_proof_magic
unfolding has_magic
magic-fits bytes h = rw (has_magic, get_range-fits bytes 0 6 (omega (arith, h))) refl

pub count-fits :
    (bytes : Bytes)
    → 34 ≤ length bytes
    → declares (read_be bytes 30 4) (body_of bytes) ≡ declares (count_in bytes) (drop 34 bytes)
count-fits bytes h = rw (read_be-fits bytes 30 4 (omega (arith, h)), body-fits bytes h) refl

pub parse_bytes-framed : (bytes : Bytes) → IsFramed bytes → parse_bytes bytes ≡ ok (parsed bytes)
unfolding parse_bytes check_length check_magic check_count
parse_bytes-framed bytes f =
    let short : ltb (length bytes) 34 ≡ false = ground (arith, f.long) in
    let magic : has_magic bytes ≡ true =
      magic-fits bytes f.long ∙ rw f.magic (str_eq_refl range_proof_magic) in
    let count : declares (read_be bytes 30 4) (body_of bytes) ≡ true =
      count-fits bytes f.long ∙ f.declared in
    rw (short, magic, count) (ap ok (fields-parsed bytes f.long))

pub check_length-ok : (bs : Bytes) → check_length bs ≡ ok tt → 34 ≤ length bs
unfolding check_length
check_length-ok bs h = ground arith

pub check_magic-ok : (bs : Bytes) → check_magic bs ≡ ok tt → has_magic bs ≡ true
unfolding check_magic
check_magic-ok bs h = ground arith

pub check_count-ok :
    (bs : Bytes) → check_count bs ≡ ok tt → declares (read_be bs 30 4) (body_of bs) ≡ true
unfolding check_count
check_count-ok bs h = ground arith

pub parse_bytes-ok :
    (bytes : Bytes) (proof : RangeProof)
    → parse_bytes bytes ≡ ok proof
    → IsFramed bytes × (proof ≡ parsed bytes)
unfolding parse_bytes
parse_bytes-ok bytes proof e =
    let (e1, r1) =
      then-eq-ok (check_length bytes)
        (check_magic bytes >> (check_count bytes >> ok (fields_of bytes))) e in
    let (e2, r2) = then-eq-ok (check_magic bytes) (check_count bytes >> ok (fields_of bytes)) r1 in
    let (e3, r3) = then-eq-ok (check_count bytes) (ok (fields_of bytes)) r2 in
    let long = check_length-ok bytes e1 in
    (
      record {
        long = long;
        magic =
            str_eq→eq (take 6 bytes) range_proof_magic
              (sym (magic-fits bytes long) ∙ check_magic-ok bytes e2);
        declared = sym (count-fits bytes long) ∙ check_count-ok bytes e3;
      },
      sym (ok-injective (fields_of bytes) proof r3) ∙ fields-parsed bytes long,
    )
