-- ===== src/Mysqlmgr/Fields.antt =====
-- internal/mysqlmgr/ddl.go: which lists of fields `ValidateFields` lets pass.
use data_flow_agent_hub.Base.{
  Text, codes, same, to_upper, is_positive, any, All, List, [], ◌∷◌, true, false, Option, none,
  some, ◌≡◌, ◌≢◌, ◌⊎◌, ◌↔◌, inl, inr, refl, sym, ◌∙◌, arith, Bool-cases, ||-true, same→eq, eq→same,
}
use data_flow_agent_hub.Mysqlmgr.Ddl.{
  FieldDef, FieldError, valid_types, is_valid_field_type, lacks_length, is_named, field_error,
  or_else, validate_from, validate_fields,
}

-- an entry of a list
abbrev pub Member : Text → List Text → Type 0
Member t [] = ⊥
Member t (v ∷ vs) = (t ≡ v) ⊎ Member t vs

-- A type of the list of types, in any case, with a length above zero where the type needs one.
pub record IsField (f : FieldDef) : Type 0 where
  pub known : Member (to_upper f.field_type) valid_types
  pub sized :
      (to_upper f.field_type ≡ codes "VARCHAR") ⊎ (to_upper f.field_type ≡ codes "DECIMAL")
      → is_positive f.field_len ≡ true

abbrev pub OtherName : Text → FieldDef → Type 0
OtherName name f = f.name ≢ name

-- no two fields have the same name
abbrev pub DistinctNames : List FieldDef → Type 0
DistinctNames [] = Unit
DistinctNames (f ∷ fields) = All (OtherName f.name) fields × DistinctNames fields

any-same→Member : (t : Text) (vs : List Text) → any (λ v. same v t) vs ≡ true → Member t vs
any-same→Member t [] h = cc
any-same→Member t (v ∷ vs) h = elim (||-true (same v t) _ h) [
  | inl e ↦ inl (sym (same→eq v t e))
  | inr e ↦ inr (any-same→Member t vs e)
]

Member→any-same : (t : Text) (vs : List Text) → Member t vs → any (λ v. same v t) vs ≡ true
Member→any-same t [] h = absurd h
Member→any-same t (v ∷ vs) (inl e) = rw (eq→same v t (sym e)) refl
Member→any-same t (v ∷ vs) (inr h) = ground (arith, Member→any-same t vs h)

lacks_length→sized :
    (f : FieldDef)
    → lacks_length f ≡ false
    → (to_upper f.field_type ≡ codes "VARCHAR") ⊎ (to_upper f.field_type ≡ codes "DECIMAL")
    → is_positive f.field_len ≡ true
unfolding lacks_length
lacks_length→sized f h (inl e) = elim (Bool-cases (is_positive f.field_len)) [
  | inl p ↦ p
  | inr n ↦ ground (arith, eq→same _ _ e)
]
lacks_length→sized f h (inr e) = elim (Bool-cases (is_positive f.field_len)) [
  | inl p ↦ p
  | inr n ↦ ground (arith, eq→same _ _ e)
]

sized-lacks_length : (f : FieldDef) → IsField f → lacks_length f ≡ false
unfolding lacks_length
sized-lacks_length f v = elim (Bool-cases (same (to_upper f.field_type) (codes "VARCHAR"))) [
  | inl e ↦ rw (v.sized (inl (same→eq _ _ e))) (ground arith)
  | inr n ↦ elim (Bool-cases (same (to_upper f.field_type) (codes "DECIMAL"))) [
    | inl e ↦ rw (v.sized (inr (same→eq _ _ e))) (ground arith)
    | inr m ↦ ground arith
  ]
]

abbrev Absent : Text → List Text → Type 0
Absent name names = All (λ n. name ≢ n) names

unnamed→Absent : (name : Text) (names : List Text) → is_named name names ≡ false → Absent name names
unfolding is_named
unnamed→Absent name [] h = tt
unnamed→Absent name (n ∷ names) h =
    (λ e. ground (arith, eq→same n name (sym e)), unnamed→Absent name names (ground arith))

Absent→unnamed : (name : Text) (names : List Text) → Absent name names → is_named name names ≡ false
unfolding is_named
Absent→unnamed name [] h = refl
Absent→unnamed name (n ∷ names) h = elim (Bool-cases (same n name)) [
  | inl e ↦ absurd (h.0 (sym (same→eq n name e)))
  | inr k ↦ rw k (Absent→unnamed name names h.1)
]

-- a round of the loop without an error
field_error-IsField :
    (names : List Text) (f : FieldDef)
    → field_error names f ≡ none
    → IsField f × Absent f.name names
field_error-IsField names f h = (
  record {
    known =
        any-same→Member (to_upper f.field_type) valid_types
          (unfold field_error is_valid_field_type in ground arith);
    sized = lacks_length→sized f (unfold field_error in ground arith);
  },
  unnamed→Absent f.name names (unfold field_error in ground arith),
)

IsField-field_error :
    (names : List Text) (f : FieldDef)
    → IsField f
    → Absent f.name names
    → field_error names f ≡ none
unfolding field_error is_valid_field_type
IsField-field_error names f v h =
    rw (Member→any-same _ valid_types v.known)
      (rw (sized-lacks_length f v) (rw (Absent→unnamed f.name names h) refl))

abbrev AllAbsent : List Text → List FieldDef → Type 0
AllAbsent names fields = All (λ g. Absent g.name names) fields

All-both :
    (name : Text) (names : List Text) (fields : List FieldDef)
    → All (OtherName name) fields
    → AllAbsent names fields
    → AllAbsent (name ∷ names) fields
All-both name names [] h k = tt
All-both name names (g ∷ fields) h k = ((h.0, k.0), All-both name names fields h.1 k.1)

All-parts :
    (name : Text) (names : List Text) (fields : List FieldDef)
    → AllAbsent (name ∷ names) fields
    → All (OtherName name) fields × AllAbsent names fields
All-parts name names [] h = (tt, tt)
All-parts name names (g ∷ fields) h =
    let r = All-parts name names fields h.1 in ((h.0.0, r.0), (h.0.1, r.1))

validate_from-step :
    (names : List Text) (f : FieldDef) (fields : List FieldDef)
    → validate_from names (f ∷ fields)
      ≡ or_else (field_error names f) (validate_from (f.name ∷ names) fields)
unfolding validate_from
validate_from-step names f fields = refl

or_else→none : (a b : Option FieldError) → or_else a b ≡ none → (a ≡ none) × (b ≡ none)
unfolding or_else
or_else→none none b h = (refl, h)
or_else→none (some e) b h = cc

validate_from_sound :
    (names : List Text) (fields : List FieldDef)
    → validate_from names fields ≡ none
    → All IsField fields × DistinctNames fields × AllAbsent names fields
validate_from_sound names [] h = (tt, tt, tt)
validate_from_sound names (f ∷ fields) h =
    let r = or_else→none _ _ (sym (validate_from-step names f fields) ∙ h) in
    let (v, away) = field_error-IsField names f r.0 in
    let (vs, distinct, absent) = validate_from_sound (f.name ∷ names) fields r.1 in
    let (others, rest) = All-parts f.name names fields absent in
    ((v, vs), (others, distinct), (away, rest))

validate_from_complete :
    (names : List Text) (fields : List FieldDef)
    → All IsField fields
    → DistinctNames fields
    → AllAbsent names fields
    → validate_from names fields ≡ none
unfolding validate_from or_else
validate_from_complete names [] v d a = refl
validate_from_complete names (f ∷ fields) v d a =
    rw (IsField-field_error names f v.0 a.0) (
      validate_from_complete (f.name ∷ names) fields v.1 d.1 (All-both f.name names fields d.0 a.1))

AllAbsent-nil : (fields : List FieldDef) → AllAbsent [] fields
AllAbsent-nil [] = tt
AllAbsent-nil (g ∷ fields) = (tt, AllAbsent-nil fields)

-- ValidateFields lets a list of fields pass exactly when the type of every field, in upper case, is one
-- of the ten types of the list, every VARCHAR and DECIMAL has a length above zero, and no two fields
-- have the same name.
pub validate_fields_iff :
    (fields : List FieldDef)
    → (validate_fields fields ≡ none) ↔ (All IsField fields × DistinctNames fields)
unfolding validate_fields
validate_fields_iff fields = (
  λ h. let r = validate_from_sound [] fields h in (r.0, r.1),
  λ h. validate_from_complete [] fields h.0 h.1 (AllAbsent-nil fields),
)
