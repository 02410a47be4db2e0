-- ===== src/Error.antt =====
-- `AhlError` and `AhlResult` (error.rs).
-- A `String` that the source builds by `format!` is a `Message`, the sequence of its literal
-- pieces and of its arguments. The error values of other crates (hex, base64, time, ed25519_dalek,
-- atl_core, serde_json) are only ever rendered, so each is carried as the text that it renders to.
use ahl_core.Prelude.{ℕ, ◌≡◌, refl, Str, Option, none, some, List, [], ◌∷◌, Bool, true, false}

pub data Piece : Type 0 where
  text : Str → Piece
  num : ℕ → Piece

abbrev pub Message : Type 0
Message = List Piece

-- A message with no argument.
abbrev pub lit : Str → Message
lit s = text s ∷ []

pub data AhlError : Type 0 where
  hex base64 public_key merkle json : Str → AhlError
  missing_prefix : Str → Str → AhlError
  bad_length : Str → ℕ → ℕ → AhlError
  field : Message → AhlError
  duplicate_record : Str → AhlError
  dataset_id_syntax dataset_id_control_octet canonicalization_identifier_syntax : Str → AhlError
  media_type_syntax media_type_duplicate_param : Str → Str → AhlError
  tree_root_mismatch : Str → Str → AhlError
  tree_count_mismatch : Str → ℕ → ℕ → AhlError
  tree_unsorted : Str → ℕ → Str → AhlError
  invalid_commitment missing_tree_material : Str → AhlError
  timestamp : Str → Str → Str → AhlError
  range_proof atl_checkpoint cosigned_checkpoint : Message → AhlError
  -- A loop of the model ran out of fuel; the source has no such value.
  out_of_fuel : AhlError

pub data Result {ℓ κ} (E : Type ℓ) (A : Type κ) : Type (ℓ ⊔ κ) where
  ok : A → Result E A
  err : E → Result E A

abbrev pub AhlResult {ℓ} : Type ℓ → Type ℓ
AhlResult A = Result AhlError A

-- The `?` operator: the rest of the function runs on the value, an error is returned as it is.
infixl 5 ◌>>=◌
abbrev pub ◌>>=◌ {ι ℓ κ} :
    {A : Type ℓ} {E : Type ι} {B : Type κ} → Result E A → (A → Result E B) → Result E B
◌>>=◌ (err failure) rest = err failure
◌>>=◌ (ok value) rest = rest value

-- The `?` operator on a result of `()`.
infixl 5 ◌>>◌
abbrev pub ◌>>◌ {ι κ} : {E : Type ι} {B : Type κ} → Result E (Unit {0}) → Result E B → Result E B
◌>>◌ (err failure) rest = err failure
◌>>◌ (ok _) rest = rest

-- `option.ok_or(error)`.
abbrev pub ok_or {ℓ ι} : {E : Type ι} {A : Type ℓ} → Option A → E → Result E A
ok_or none e = err e
ok_or (some a) e = ok a

-- `result.map_err(f)`.
abbrev pub map_err {ℓ ι κ} :
    {E : Type ι} {F : Type κ} {A : Type ℓ} → (E → F) → Result E A → Result F A
map_err f (ok a) = ok a
map_err f (err e) = err (f e)

-- An early `return Err(error)` where the test passes.
abbrev pub reject_if {ι} : {E : Type ι} → Bool → E → Result E (Unit {0})
reject_if true e = err e
reject_if false e = ok tt

-- What a successful `?` went through: the value, and how the rest ran on it.
module _ {ι ℓ κ} {E : Type ι} {A : Type ℓ} {B : Type κ} (rest : A → Result E B) {b : B} where
  pub bind-eq-ok :
      (r : Result E A) → (r >>= rest) ≡ ok b → (value : A) × (r ≡ ok value) × (rest value ≡ ok b)
  bind-eq-ok (err failure) stopped = cc
  bind-eq-ok (ok value) ran = (value, refl, ran)

pub then-eq-ok {ι κ} :
    {E : Type ι} {B : Type κ} (r : Result E (Unit {0})) (rest : Result E B) {b : B}
    → (r >> rest) ≡ ok b
    → (r ≡ ok tt) × (rest ≡ ok b)
then-eq-ok (err failure) rest stopped = cc
then-eq-ok (ok _) rest ran = (refl, ran)

pub ok_or-eq-ok {ℓ ι} :
    {E : Type ι} {A : Type ℓ} (o : Option A) (e : E) {a : A} → ok_or o e ≡ ok a → o ≡ some a
ok_or-eq-ok none e stopped = cc
ok_or-eq-ok (some a) e found = cc

pub reject_if-eq-ok {ι} : {E : Type ι} (b : Bool) (e : E) → reject_if b e ≡ ok tt → b ≡ false
reject_if-eq-ok true e stopped = cc
reject_if-eq-ok false e passed = refl

pub map_err-eq-ok {ℓ ι κ} :
    {E : Type ι} {F : Type κ} {A : Type ℓ} (f : E → F) (r : Result E A) {a : A}
    → map_err f r ≡ ok a
    → r ≡ ok a
map_err-eq-ok f (ok a) found = cc
map_err-eq-ok f (err e) stopped = cc

pub ok-injective {ι ℓ} :
    {E : Type ι} {A : Type ℓ} (a b : A) → Path (Result E A) (ok a) (ok b) → a ≡ b
ok-injective a b e = cc
