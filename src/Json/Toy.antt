-- ===== src/Json/Toy.antt =====
-- A concrete tree of JSON values, on which the witnesses run.
use ahl_core.Prelude.{
  ℕ, Str, Bytes, str_eq, Bool, true, false, Option, none, some, List, [], ◌∷◌, ◌++◌,
}
use ahl_core.Json.{Json}

mutual
  pub data Tree : Type 0 where
    t_null : Tree
    t_bool : Bool → Tree
    t_num : ℕ → Tree
    t_str : Str → Tree
    t_arr : Trees → Tree
    t_obj : Fields → Tree

  pub data Trees : Type 0 where
    t_end : Trees
    t_item : Tree → Trees → Trees

  pub data Fields : Type 0 where
    f_end : Fields
    f_item : Str → Tree → Fields → Fields

unfoldable pub field : Fields → Str → Option Tree
field f_end key = none
field (f_item k v rest) key =
    let later = field rest key in elim (str_eq k key) [ true ↦ some v | false ↦ later ]

unfoldable pub items : Trees → List Tree
items t_end = []
items (t_item t rest) = t ∷ items rest

unfoldable pub fields : List (Str × Tree) → Fields
fields [] = f_end
fields (kv ∷ rest) = f_item kv.0 kv.1 (fields rest)

abbrev get : Tree → Str → Option Tree
get (t_obj fs) key = field fs key
get _ key = none

abbrev as_str : Tree → Option Str
as_str (t_str s) = some s
as_str _ = none

abbrev as_bool : Tree → Option Bool
as_bool (t_bool b) = some b
as_bool _ = none

abbrev as_u64 : Tree → Option ℕ
as_u64 (t_num n) = some n
as_u64 _ = none

abbrev as_array : Tree → Option (List Tree)
as_array (t_arr ts) = some (items ts)
as_array _ = none

abbrev is_object : Tree → Bool
is_object (t_obj _) = true
is_object _ = false

abbrev is_null : Tree → Bool
is_null t_null = true
is_null _ = false

unfoldable pub names : Fields → List Str
names f_end = []
names (f_item key v rest) = key ∷ names rest

abbrev member_names : Tree → Option (List Str)
member_names (t_obj fs) = some (names fs)
member_names _ = none

-- A canonical form that suits the runs: the tree in prefix order.
mutual
  pub print : Tree → Bytes
  print t_null = 0 ∷ []
  print (t_bool true) = 1 ∷ []
  print (t_bool false) = 2 ∷ []
  print (t_num n) = 3 ∷ n ∷ []
  print (t_str s) = 4 ∷ s ++ 0 ∷ []
  print (t_arr ts) = 5 ∷ print_items ts
  print (t_obj fs) = 6 ∷ print_fields fs

  pub print_items : Trees → Bytes
  print_items t_end = 0 ∷ []
  print_items (t_item t ts) = 1 ∷ print t ++ print_items ts

  pub print_fields : Fields → Bytes
  print_fields f_end = 0 ∷ []
  print_fields (f_item k v fs) = 1 ∷ k ++ 0 ∷ print v ++ print_fields fs

abbrev pub toy_json : Json
toy_json = record {
  Value = Tree;
  get = get;
  as_str = as_str;
  as_bool = as_bool;
  as_u64 = as_u64;
  as_array = as_array;
  is_object = is_object;
  is_null = is_null;
  member_names = member_names;
  string = t_str;
  object = λ kvs. t_obj (fields kvs);
  null = t_null;
  number = t_num;
  jcs = print;
}
