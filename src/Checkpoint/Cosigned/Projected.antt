-- ===== src/Checkpoint/Cosigned/Projected.antt =====
-- What `CosignedCheckpoint::project` (src/lib.rs) accepts and what it takes.
use ahl_core.Prelude.{
  ◌≡◌, ◌↔◌, ◌⊎◌, inl, inr, refl, ap, ◌∙◌, Bool, true, false, Option, none, some, List, [], ◌∷◌, map,
  Str, codes, str_eq, str_eq→eq, str_eq_refl, find, any, Bool-cases, arith,
}
use ahl_core.Error.{ok, ok_or, bind-eq-ok, then-eq-ok, ok_or-eq-ok, ok-injective}
use ahl_core.Json.{Json, last_member, BuildsObjects}
use ahl_core.Tree.{str_member}
use ahl_core.Closure.{u64_member}
use ahl_core.Checkpoint.Cosigned.{
  CosignedCheckpoint, is_extra, check_extra, required_text, read_members, project, object_members,
  cosigned_object,
}

find-none :
    (p : Str → Bool) (names : List Str)
    → find p names ≡ none
    → (name : Str) → any (str_eq name) names ≡ true
    → p name ≡ false
find-none p [] e name h = cc
find-none p (n ∷ names) e name h = elim (Bool-cases (str_eq name n)) [
  | inl here ↦ rw (str_eq→eq name n here) (ground arith)
  | inr later ↦ find-none p names (ground arith) name (ground arith)
]

none-find :
    (p : Str → Bool) (names : List Str)
    → ((name : Str) → any (str_eq name) names ≡ true → p name ≡ false)
    → find p names ≡ none
none-find p [] h = refl
none-find p (n ∷ names) h =
    rw
      (
        find,
        h n (rw (str_eq_refl n) refl),
        none-find p names (λ name later. h name (elim (Bool-cases (str_eq name n)) [
          | inl here ↦ rw here refl
          | inr other ↦ rw other later
        ])),
      )
      refl

last_member-any {ℓ} :
    {V : Type ℓ} (key : Str) (members : List (Str × V))
    → any (str_eq key) (map (λ kv. kv.0) members) ≡ true
    → (v : V) × (last_member key members ≡ some v)
unfolding last_member
last_member-any key [] h = cc
last_member-any key ((k, v) ∷ members) h =
    let rest = any (str_eq key) (map (λ kv. kv.0) members) in
    elim (Bool-cases rest) [
      | inl later ↦ (let (w, e) = last_member-any key members later in (w, rw e refl))
      | inr last ↦ here (last_member key members) v (str_eq key k) (ground arith)
    ]
  where
    here :
        {V : Type ℓ} (later : Option V) (v : V) (same : Bool)
        → same ≡ true
        → (w : V) × (elim later [
          | some x ↦ some x
          | none ↦ elim same [ true ↦ some v | false ↦ none ]
        ]
            ≡ some w)
    here (some x) v same e = (x, refl)
    here none v same e = (v, rw e refl)

module _ (json : Json) where
  open json use {Value, get, member_names}

  -- The members have the types and the values of the projection.
  pub record HasMembers (checkpoint : Value) (c : CosignedCheckpoint) : Type 0 where
    pub log_id : str_member json (get checkpoint (codes "log_id")) ≡ some c.log_id
    pub tree_size : u64_member json (get checkpoint (codes "tree_size")) ≡ some c.tree_size
    pub root_hash : str_member json (get checkpoint (codes "root_hash")) ≡ some c.root_hash
    pub checkpoint_time :
        str_member json (get checkpoint (codes "checkpoint_time")) ≡ some c.checkpoint_time
    pub key_id : str_member json (get checkpoint (codes "key_id")) ≡ some c.key_id
    pub signature : str_member json (get checkpoint (codes "signature")) ≡ some c.signature

  -- A name of the object that the witness signs over, or `raw`.
  abbrev pub Permitted : CosignedCheckpoint → Str → Type 0
  Permitted c name =
      (name ≡ codes "raw") ⊎ ((v : Value) × (get (cosigned_object json c) name ≡ some v))

  pub record IsProjection (checkpoint : Value) (c : CosignedCheckpoint) : Type 0 where
    pub members : List Str
    pub is_object : member_names checkpoint ≡ some members
    pub permitted : (name : Str) → any (str_eq name) members ≡ true → Permitted c name
    pub has_members : HasMembers checkpoint c

  required_text-eq-ok :
      (checkpoint : Value) (member s : Str)
      → required_text json checkpoint member ≡ ok s
      → str_member json (get checkpoint member) ≡ some s
  unfolding required_text
  required_text-eq-ok checkpoint member s e = ok_or-eq-ok _ _ e

  read_members-eq-ok :
      (checkpoint : Value) (c : CosignedCheckpoint)
      → read_members json checkpoint ≡ ok c
      → HasMembers checkpoint c
  unfolding read_members
  read_members-eq-ok checkpoint c e =
      let (n, e1, r1) =
        bind-eq-ok _ (ok_or (u64_member json (get checkpoint (codes "tree_size"))) _) e in
      let (l, e2, r2) = bind-eq-ok _ (required_text json checkpoint (codes "log_id")) r1 in
      let (h, e3, r3) = bind-eq-ok _ (required_text json checkpoint (codes "root_hash")) r2 in
      let (t, e4, r4) = bind-eq-ok _ (required_text json checkpoint (codes "checkpoint_time")) r3 in
      let (k, e5, r5) = bind-eq-ok _ (required_text json checkpoint (codes "key_id")) r4 in
      let (s, e6, r6) = bind-eq-ok _ (required_text json checkpoint (codes "signature")) r5 in
      let made = ok-injective _ c r6 in
      record {
        log_id = required_text-eq-ok checkpoint _ l e2 ∙ ap (λ x. some x.log_id) made;
        tree_size = ok_or-eq-ok _ _ e1 ∙ ap (λ x. some x.tree_size) made;
        root_hash = required_text-eq-ok checkpoint _ h e3 ∙ ap (λ x. some x.root_hash) made;
        checkpoint_time =
            required_text-eq-ok checkpoint _ t e4 ∙ ap (λ x. some x.checkpoint_time) made;
        key_id = required_text-eq-ok checkpoint _ k e5 ∙ ap (λ x. some x.key_id) made;
        signature = required_text-eq-ok checkpoint _ s e6 ∙ ap (λ x. some x.signature) made;
      }

  read_members-ok :
      (checkpoint : Value) (c : CosignedCheckpoint)
      → HasMembers checkpoint c
      → read_members json checkpoint ≡ ok c
  unfolding read_members required_text
  read_members-ok checkpoint c has =
      rw (has.tree_size, has.log_id, has.root_hash, has.checkpoint_time, has.key_id, has.signature)
        refl

  module _ (builds : BuildsObjects json) where
    -- The names of the literal list are those of the object, and `raw`.
    is_extra-Permitted :
        (c : CosignedCheckpoint) (name : Str) → is_extra name ≡ false → Permitted c name
    unfolding cosigned_object last_member
    is_extra-Permitted c name known = elim (Bool-cases (str_eq name (codes "raw"))) [
      | inl raw ↦ inl (str_eq→eq name (codes "raw") raw)
      | inr other ↦ inr (
          let (v, e) = last_member-any name (object_members json c) (ground arith) in
          (v, builds _ name ∙ e))
    ]

    Permitted-is_extra :
        (c : CosignedCheckpoint) (name : Str) → Permitted c name → is_extra name ≡ false
    unfolding cosigned_object last_member
    Permitted-is_extra c name (inl raw) = rw (raw, str_eq_refl (codes "raw")) (ground arith)
    Permitted-is_extra c name (inr (v, e)) = let h = rw (builds _ name) at e in ground arith

    checked-Permitted :
        (members : List Str) (c : CosignedCheckpoint)
        → check_extra members ≡ ok tt
        → (name : Str) → any (str_eq name) members ≡ true
        → Permitted c name
    unfolding check_extra
    checked-Permitted members c e name there =
        is_extra-Permitted c name (find-none is_extra members (ground arith) name there)

    Permitted-checked :
        (members : List Str) (c : CosignedCheckpoint)
        → ((name : Str) → any (str_eq name) members ≡ true → Permitted c name)
        → check_extra members ≡ ok tt
    unfolding check_extra
    Permitted-checked members c h =
        rw
          (
            check_extra,
            none-find is_extra members (λ name there. Permitted-is_extra c name (h name there)),
          )
          refl

    -- Where `json!` builds objects as documented, a checkpoint projects to `c` exactly when it is an
    -- object, each of its members is named in the object of `c` that witnesses sign over or is `raw`,
    -- and its six members have the types and the values of `c`.
    pub project_iff :
        (checkpoint : Value) (c : CosignedCheckpoint)
        → (project json checkpoint ≡ ok c) ↔ IsProjection checkpoint c
    unfolding project
    project_iff checkpoint c = (forward, backward)
      where
        forward : project json checkpoint ≡ ok c → IsProjection checkpoint c
        forward e =
            let (members, e1, r1) = bind-eq-ok _ (ok_or (member_names checkpoint) _) e in
            let (e2, r2) = then-eq-ok (check_extra members) _ r1 in
            record {
              members = members;
              is_object = ok_or-eq-ok _ _ e1;
              permitted = checked-Permitted members c e2;
              has_members = read_members-eq-ok checkpoint c r2;
            }

        backward : IsProjection checkpoint c → project json checkpoint ≡ ok c
        backward p =
            rw (p.is_object, Permitted-checked p.members c p.permitted)
              (read_members-ok checkpoint c p.has_members)
