-- ===== src/Json.antt =====
-- What ahl-core takes from the crate `serde_json` (`Value` and its readers) and from
-- `atl_core::canonicalize` (`jcs` of lib.rs), neither of which is part of the repository.
pub mod Toy
pub mod CanonicalText
use ahl_core.Prelude.{
  ℕ, ◌^◌, ◌≤◌, ◌≡◌, Str, Bytes, str_eq, Bool, true, false, Option, none, some, List, [], ◌∷◌,
}

pub record Json : Type 1 where
  pub Value : Type 0
  -- `Value::get(key)`: a member of an object, `None` on any other value.
  pub get : Value → Str → Option Value
  pub as_str : Value → Option Str
  pub as_bool : Value → Option Bool
  pub as_u64 : Value → Option ℕ
  pub as_array : Value → Option (List Value)
  pub is_object : Value → Bool
  pub is_null : Value → Bool
  -- `Value::as_object` with `Map::keys`: the names of the members.
  pub member_names : Value → Option (List Str)
  -- `Value::String(s)`
  pub string : Str → Value
  -- `json!({ key: value, ... })`
  pub object : List (Str × Value) → Value
  pub null : Value
  -- `Value::from(u64)`
  pub number : ℕ → Value
  pub jcs : Value → Bytes

-- The member that `json!` writes to a key: `Map::insert` keeps the last of several.
unfoldable pub last_member {ℓ} : {V : Type ℓ} → Str → List (Str × V) → Option V
last_member key [] = none
last_member key (kv ∷ rest) = elim (last_member key rest) [
  | some later ↦ some later
  | none ↦ elim (str_eq key kv.0) [ true ↦ some kv.1 | false ↦ none ]
]

-- `json!` builds an object with the members it names.
abbrev pub BuildsObjects : Json → Type 0
BuildsObjects json =
    (members : List (Str × json.Value)) (key : Str)
    → json.get (json.object members) key ≡ last_member key members

-- The text of RFC 8785 tells apart members of objects, strings, and the integers that a double
-- holds exactly.
pub record IsCanonical (json : Json) : Type 0 where
  pub jcs-get :
      (a b : json.Value) (key : Str) (v w : json.Value)
      → json.jcs a ≡ json.jcs b
      → json.get a key ≡ some v
      → json.get b key ≡ some w
      → json.jcs v ≡ json.jcs w
  pub jcs-string : (s t : Str) → json.jcs (json.string s) ≡ json.jcs (json.string t) → s ≡ t
  pub jcs-number :
      (n m : ℕ)
      → n ≤ 2 ^ 53
      → m ≤ 2 ^ 53
      → json.jcs (json.number n) ≡ json.jcs (json.number m)
      → n ≡ m
