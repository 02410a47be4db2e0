-- ===== src/Closure/Seeds.antt =====
-- The seeds of a trigger (`trigger_seeds` of src/closure.rs): the record that it names, and for a
-- correction the replacements that earlier corrections gave that record.
use ahl_core.Prelude.{
  ℕ, ◌<◌, ◌≡◌, ◌↔◌, ◌⊎◌, inl, inr, refl, sym, ap, ◌∙◌, Bool, true, false, ◌||◌, Option, none, some,
  List, [], ◌∷◌, Str, codes, if◌then◌else◌, any, get_elem?, take, arith, Bool-cases,
}
use ahl_core.Prelude.Order.{nat_ord, list_ord, pair_ord}
use ahl_core.Prelude.Sets.{contains, same, same→eq, same_refl, contains-single, contains-insert_eq}
use ahl_core.Prelude.Found.{any-witness, witness-any, get_elem?-take, take-get_elem?}
use ahl_core.Error.{ok}
use ahl_core.Json.{Json}
use ahl_core.Tree.{field_str, str_member}
use ahl_core.Closure.{
  RecordRef, payload_of, statement_type, is_text, corrects, unless_own, superseded, superseded_in,
  add_seed, add_seeds, is_trigger, trigger_payload, trigger_seeds,
}

module _ (json : Json) where
  open json use {Value, get}

  -- The trigger seeds the record that an earlier correction put in place of the one it names.
  pub record Supersedes (envelopes : List Value) (trigger : ℕ) (dataset : Str) (commitment : Str)
      (own : Option Str) (replacement : Str) : Type 0 where
    pub index : ℕ
    pub envelope : Value
    pub payload : Value
    pub is_earlier : index < trigger
    pub anchored : get_elem? envelopes index ≡ some envelope
    pub carries : payload_of json envelope ≡ some payload
    pub correction : corrects json dataset commitment payload ≡ true
    pub names : str_member json (get payload (codes "replacement")) ≡ some replacement
    pub is_other : is_text own replacement ≡ false

  abbrev seeds_it : Str → Option Str → RecordRef → Bool
  seeds_it dataset none x = false
  seeds_it dataset (some replacement) x = same x (dataset, replacement)

  abbrev seeded_by : Str → Str → Option Str → RecordRef → Value → Bool
  seeded_by dataset commitment own x envelope =
      seeds_it dataset (superseded_in json dataset commitment own (payload_of json envelope)) x

  contains-add_seed :
      (dataset : Str) (found : Option Str) (seeds : List RecordRef) (x : RecordRef)
      → contains (add_seed dataset found seeds) x ≡ (seeds_it dataset found x || contains seeds x)
  contains-add_seed dataset none seeds x = refl
  contains-add_seed dataset (some replacement) seeds x =
      contains-insert_eq (dataset, replacement) seeds x

  or_false : (b : Bool) → (b || false) ≡ b
  or_false b = ground arith

  regroup : (a b c : Bool) → ((a || b) || c) ≡ (b || (a || c))
  regroup a b c = ground arith

  contains-add_seeds :
      (dataset commitment : Str) (own : Option Str) (envelopes : List Value)
      (seeds : List RecordRef) (x : RecordRef)
      → contains (add_seeds json dataset commitment own envelopes seeds) x
        ≡ (contains seeds x || any (seeded_by dataset commitment own x) envelopes)
  unfolding add_seeds
  contains-add_seeds dataset commitment own [] seeds x = sym (or_false _)
  contains-add_seeds dataset commitment own (envelope ∷ rest) seeds x =
      contains-add_seeds dataset commitment own rest
        (add_seed dataset (superseded_in json dataset commitment own (payload_of json envelope))
          seeds)
        x
      ∙ rw
          (contains-add_seed dataset
            (superseded_in json dataset commitment own (payload_of json envelope)) seeds x)
          (regroup
            (seeds_it dataset (superseded_in json dataset commitment own (payload_of json envelope))
              x)
            (contains seeds x) (any (seeded_by dataset commitment own x) rest))

  found-replacement :
      (dataset : Str) (own found : Option Str) (x : RecordRef)
      → seeds_it dataset (unless_own own found) x ≡ true
      → (r : Str) × (found ≡ some r) × (is_text own r ≡ false) × (x ≡ (dataset, r))
  found-replacement dataset own none x h = cc
  found-replacement dataset own (some r) x h = elim (Bool-cases (is_text own r)) [
    | inl mine ↦
        absurd (
          nothing_seeded (sym (ap (λ b. seeds_it dataset (if b then none else some r) x) mine) ∙ h))
    | inr other ↦ (
      r,
      refl,
      other,
      same→eq {A = RecordRef} x (dataset, r)
          (sym (ap (λ b. seeds_it dataset (if b then none else some r) x) other) ∙ h),
    )
  ]
    where
      nothing_seeded : false ≡ true → ⊥
      nothing_seeded e = cc

  found-payload :
      (dataset commitment : Str) (own : Option Str) (found : Option Value) (x : RecordRef)
      → seeds_it dataset (superseded_in json dataset commitment own found) x ≡ true
      → (payload : Value) × (r : Str) × (found ≡ some payload)
        × (corrects json dataset commitment payload ≡ true)
        × (str_member json (get payload (codes "replacement")) ≡ some r)
        × (is_text own r ≡ false)
        × (x ≡ (dataset, r))
  unfolding superseded
  found-payload dataset commitment own none x h = cc
  found-payload dataset commitment own (some payload) x h =
      elim (Bool-cases (corrects json dataset commitment payload)) [
        | inl yes_corrects ↦
            let (r, named, other, e) =
              found-replacement dataset own (str_member json (get payload (codes "replacement"))) x
                (sym (ap (λ b. seeds_it dataset (branch payload b) x) yes_corrects) ∙ h) in
            (payload, r, refl, yes_corrects, named, other, e)
        | inr other ↦
            absurd
              (nothing_seeded (sym (ap (λ b. seeds_it dataset (branch payload b) x) other) ∙ h))
      ]
    where
      branch : Value → Bool → Option Str
      branch payload b =
          if b then unless_own own (str_member json (get payload (codes "replacement"))) else none

      nothing_seeded : false ≡ true → ⊥
      nothing_seeded e = cc

  -- One earlier envelope that seeds a record, and the record that it gives.
  seeded_by-Supersedes :
      (envelopes : List Value) (trigger : ℕ) (dataset commitment : Str) (own : Option Str)
      (x : RecordRef) (i : ℕ) (envelope : Value)
      → i < trigger
      → get_elem? envelopes i ≡ some envelope
      → seeded_by dataset commitment own x envelope ≡ true
      → (replacement : Str) × Supersedes envelopes trigger dataset commitment own replacement
        × (x ≡ (dataset, replacement))
  seeded_by-Supersedes envelopes trigger dataset commitment own x i envelope below at h =
      let (payload, r, carried, correction, named, other, e) =
        found-payload dataset commitment own (payload_of json envelope) x h in
      (
        r,
        record {
          index = i;
          envelope = envelope;
          payload = payload;
          is_earlier = below;
          anchored = at;
          carries = carried;
          correction = correction;
          names = named;
          is_other = other;
        },
        e,
      )

  Supersedes-seeded_by :
      (envelopes : List Value) (trigger : ℕ) (dataset commitment : Str) (own : Option Str) (r : Str)
      (s : Supersedes envelopes trigger dataset commitment own r)
      → seeded_by dataset commitment own (dataset, r) s.envelope ≡ true
  unfolding superseded
  Supersedes-seeded_by envelopes trigger dataset commitment own r s =
      rw (s.carries, s.correction, s.names, s.is_other) (same_refl {A = RecordRef} (dataset, r))

  abbrev pub own_of : Value → Option Str
  own_of payload = str_member json (get payload (codes "replacement"))

  abbrev pub is_retraction : Value → Bool
  is_retraction payload = is_text (statement_type json payload) (codes "retraction")

  single : (x r : RecordRef) → contains (r ∷ []) x ≡ true → x ≡ r
  single x r h = same→eq x r (sym (contains-single r x) ∙ h)

  single_back : (x r : RecordRef) → x ≡ r → contains (r ∷ []) x ≡ true
  single_back x r e = contains-single r x ∙ rw e (same_refl r)

  either : (a b : Bool) → a || b ≡ true → (a ≡ true) ⊎ (b ≡ true)
  either true b h = inl refl
  either false b h = inr h

  -- The record named, or the replacement that an earlier correction put in place of it.
  abbrev pub Replaced : List Value → ℕ → Str → Str → Option Str → RecordRef → Type 0
  Replaced envelopes trigger dataset commitment own x =
      (replacement : Str) × Supersedes envelopes trigger dataset commitment own replacement
      × (x ≡ (dataset, replacement))

  module _ (envelopes : List Value) (trigger : ℕ) (dataset commitment : Str) (own : Option Str)
      (x : RecordRef) where
    abbrev all_seeds : List RecordRef
    all_seeds =
        add_seeds json dataset commitment own (take trigger envelopes) ((dataset, commitment) ∷ [])

    abbrev by_earlier : Bool
    by_earlier = any (seeded_by dataset commitment own x) (take trigger envelopes)

    added : contains all_seeds x ≡ (contains ((dataset, commitment) ∷ []) x || by_earlier)
    added =
        contains-add_seeds dataset commitment own (take trigger envelopes)
          ((dataset, commitment) ∷ []) x

    seeds_sound :
        contains all_seeds x ≡ true
        → (x ≡ (dataset, commitment)) ⊎ Replaced envelopes trigger dataset commitment own x
    seeds_sound h =
        elim (either (contains ((dataset, commitment) ∷ []) x) by_earlier (sym added ∙ h)) [
          | inl named ↦ inl (single x (dataset, commitment) named)
          | inr later ↦
              let (i, envelope, at, found) =
                any-witness (seeded_by dataset commitment own x) (take trigger envelopes) later in
              let (below, there) = get_elem?-take trigger envelopes i envelope at in
              inr (
                seeded_by-Supersedes envelopes trigger dataset commitment own x i envelope below
                  there found)
        ]

    seeds_complete :
        (x ≡ (dataset, commitment)) ⊎ Replaced envelopes trigger dataset commitment own x
        → contains all_seeds x ≡ true
    seeds_complete (inl named) = added ∙ rw (single_back x (dataset, commitment) named) refl
    seeds_complete (inr (r, s, e)) =
        added
        ∙ rw
            (witness-any (seeded_by dataset commitment own x) (take trigger envelopes) s.index
              s.envelope
              (take-get_elem? trigger envelopes s.index s.envelope s.is_earlier s.anchored)
              (rw e (Supersedes-seeded_by envelopes trigger dataset commitment own r s)))
            (or_true (contains ((dataset, commitment) ∷ []) x))
      where
        or_true : (b : Bool) → (b || true) ≡ true
        or_true b = ground arith

  -- A retraction or correction that names a record seeds that record, and a correction besides
  -- it exactly the replacements other than its own that earlier corrections put in place of it.
  pub trigger_seeds_exact :
      (envelopes : List Value) (trigger : ℕ) (payload : Value) (dataset commitment : Str)
      → trigger_payload json envelopes trigger ≡ ok payload
      → is_trigger (statement_type json payload) ≡ true
      → field_str json payload (codes "dataset") ≡ ok dataset
      → field_str json payload (codes "record") ≡ ok commitment
      → (seeds : List RecordRef) × (trigger_seeds json envelopes trigger ≡ ok seeds)
        × ((x : RecordRef)
            → (contains seeds x ≡ true) ↔ (
                (x ≡ (dataset, commitment))
                ⊎ ((is_retraction payload ≡ false)
                    × Replaced envelopes trigger dataset commitment (own_of payload) x)))
  unfolding trigger_seeds
  trigger_seeds_exact envelopes trigger payload dataset commitment e1 e2 e3 e4 =
      elim (Bool-cases (is_retraction payload)) [
        | inl retraction ↦ (
          (dataset, commitment) ∷ [],
          rw (e1, e2, e3, e4, retraction) refl,
          λ x. (
            λ h. inl (single x (dataset, commitment) h),
            λ h. elim h [
              | inl named ↦ single_back x (dataset, commitment) named
              | inr (other, _) ↦ absurd (both other retraction)
            ],
          ),
        )
        | inr correction ↦ (
          add_seeds json dataset commitment (own_of payload) (take trigger envelopes)
              ((dataset, commitment) ∷ []),
          rw (e1, e2, e3, e4, correction) refl,
          λ x. (
            λ h. elim (seeds_sound envelopes trigger dataset commitment (own_of payload) x h) [
              | inl named ↦ inl named
              | inr replaced ↦ inr (correction, replaced)
            ],
            λ h.
                seeds_complete envelopes trigger dataset commitment (own_of payload) x
                  (elim h [ inl named ↦ inl named | inr (_, replaced) ↦ inr replaced ]),
          ),
        )
      ]
    where
      both : {b : Bool} → b ≡ false → b ≡ true → ⊥
      both e f = cc
