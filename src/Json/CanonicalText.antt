-- ===== src/Json/CanonicalText.antt =====
-- A concrete instance in which a value is its own canonical text: a tag, and behind it the string, the
-- number, or the members of the object, each key and each value behind its length.
use ahl_core.Prelude.{
  ℕ, zero, suc, ◌≤◌, ◌≡◌, refl, ap, Str, Bytes, Bool, Option, none, some, List, [], ◌∷◌, ◌++◌, map,
  length, length-append, take, drop, take-append, drop-append, ◌==◌, if◌then◌else◌, arith,
}
use ahl_core.Json.{Json, last_member, BuildsObjects, IsCanonical}

unfoldable pub pairs : List (Str × Bytes) → Bytes
pairs [] = []
pairs (kv ∷ rest) = length kv.0 ∷ (kv.0 ++ (length kv.1 ∷ (kv.1 ++ pairs rest)))

-- The text behind its length, and what follows it.
abbrev measured : Bytes → Bytes
measured [] = []
measured (n ∷ text) = take n text

abbrev behind : Bytes → Bytes
behind [] = []
behind (n ∷ text) = drop n text

unfoldable pub read_pairs : ℕ → Bytes → List (Str × Bytes)
read_pairs zero text = []
read_pairs (suc fuel) [] = []
read_pairs (suc fuel) (n ∷ text) =
    (take n text, measured (drop n text)) ∷ read_pairs fuel (behind (drop n text))

read_pairs-pairs :
    (fuel : ℕ) (members : List (Str × Bytes))
    → length members ≤ fuel
    → read_pairs fuel (pairs members) ≡ members
unfolding read_pairs pairs
read_pairs-pairs zero [] enough = refl
read_pairs-pairs zero (kv ∷ rest) enough = absurd (omega arith)
read_pairs-pairs (suc fuel) [] enough = refl
read_pairs-pairs (suc fuel) (kv ∷ rest) enough =
    rw
      (
        take-append kv.0 (length kv.1 ∷ (kv.1 ++ pairs rest)),
        drop-append kv.0 (length kv.1 ∷ (kv.1 ++ pairs rest)),
        take-append kv.1 (pairs rest),
        drop-append kv.1 (pairs rest),
      )
      (ap (λ more. kv ∷ more) (read_pairs-pairs fuel rest (omega arith)))

length-pairs : (members : List (Str × Bytes)) → length members ≤ length (pairs members)
unfolding pairs
length-pairs [] = omega arith
length-pairs (kv ∷ rest) = omega (
  arith,
  length-append kv.0 (length kv.1 ∷ (kv.1 ++ pairs rest)),
  length-append kv.1 (pairs rest),
  length-pairs rest,
)

abbrev members_of : Bytes → List (Str × Bytes)
members_of text = read_pairs (length text) text

abbrev behind_tag {ℓ} : {A : Type ℓ} → ℕ → (Bytes → Option A) → Bytes → Option A
behind_tag tag read [] = none
behind_tag tag read (k ∷ text) = if k == tag then read text else none

abbrev first : Bytes → Option ℕ
first [] = none
first (n ∷ _) = some n

abbrev pub text_json : Json
text_json = record {
  Value = Bytes;
  get = λ v key. behind_tag 6 (λ text. last_member key (members_of text)) v;
  as_str = behind_tag 4 some;
  as_bool = λ v. none;
  as_u64 = behind_tag 3 first;
  as_array = λ v. none;
  is_object = λ v. Bool.false;
  is_null = λ v. Bool.false;
  member_names = behind_tag 6 (λ text. some (map (λ kv. kv.0) (members_of text)));
  string = λ s. 4 ∷ s;
  object = λ members. 6 ∷ pairs members;
  null = 0 ∷ [];
  number = λ n. 3 ∷ n ∷ [];
  jcs = λ v. v;
}

some_same {ℓ} : {A : Type ℓ} (v w : A) → some v ≡ some w → v ≡ w
some_same v w e = cc

pub text_json-BuildsObjects : BuildsObjects text_json
text_json-BuildsObjects members key =
    ap (λ read. last_member key read)
      (read_pairs-pairs (length (pairs members)) members (length-pairs members))

pub text_json-IsCanonical : IsCanonical text_json
text_json-IsCanonical = record {
  jcs-get = λ a b key v w same here there. cc;
  jcs-string = λ s t same. cc;
  jcs-number = λ n m exact exact' same. cc;
}
