-- ===== src/Handlers/Upload/Columns.antt =====
-- internal/handlers/data.go: the columns that an import writes.
use mathlib.Core.Path.{subst}
use data_flow_agent_hub.Base.{
  Text, same, same_iff, lookup, lookup-put, put, List, [], ◌∷◌, Bool, true, false, is_some, some,
  if◌then◌else◌, ◌≡◌, ◌∙◌, ap, sym, refl, inl, inr, arith, All, Bool-cases, codes, to_lower,
  trim_space, ◌++◌,
}
use data_flow_agent_hub.Handlers.Upload.{
  Validation, normal_name, check_column, check_columns, basic_column_check, mapped_name,
  target_columns, placeholders, insert_sql, InsertCall, Database, execute_mysql_insert,
}
use data_flow_agent_hub.Handlers.Upload.Inserts.{Sends, Ended-Sends, execute_mysql_insert-Ended}
use data_flow_agent_hub.Handlers.DataSql.Parse.{join}

-- a name that the table has a field of
abbrev pub IsField : List (Text × Text) → Text → Type 0
IsField target name = is_some (lookup name target) ≡ true

-- every column has its normal name in the map
abbrev pub Maps : List (Text × Text) → Text → Type 0
Maps cm c = lookup c cm ≡ some (normal_name c)

Maps-put : (cm : List (Text × Text)) (uc c : Text) → Maps cm c → Maps (put uc (normal_name uc) cm) c
Maps-put cm uc c h = elim (Bool-cases (same uc c)) [
  | inl at ↦
      lookup-put uc c (normal_name uc) cm
      ∙ ap (λ b. if b then some (normal_name uc) else lookup c cm) at
      ∙ ap (λ x. some (normal_name x)) ((same_iff uc c).0 at)
  | inr off ↦
      lookup-put uc c (normal_name uc) cm
      ∙ ap (λ b. if b then some (normal_name uc) else lookup c cm) off
      ∙ h
]

Maps-put_here : (cm : List (Text × Text)) (uc : Text) → Maps (put uc (normal_name uc) cm) uc
Maps-put_here cm uc =
    lookup-put uc uc (normal_name uc) cm
    ∙ ap (λ b. if b then some (normal_name uc) else lookup uc cm) ((same_iff uc uc).1 refl)

-- what a check that ends well says of a column
pub record Checked (target cm : List (Text × Text)) (c : Text) : Type 0 where
  pub is_field : IsField target (normal_name c)
  pub maps : Maps cm c

check_column-ok :
    (b : Bool) (uc : Text) (rest : Validation)
    → (check_column b uc rest).is_ok ≡ true
    → (b ≡ true) × (rest.is_ok ≡ true) × (check_column b uc rest ≡ rest)
unfolding check_column
check_column-ok true uc rest h = (refl, h, refl)
check_column-ok false uc rest h = absurd (ground (arith, h))

check_columns-keeps :
    (cols : List Text) (target cm : List (Text × Text)) (c : Text)
    → (check_columns cols target cm).is_ok ≡ true
    → Maps cm c
    → Maps (check_columns cols target cm).column_map c
unfolding check_columns
check_columns-keeps [] target cm c h m = m
check_columns-keeps (uc ∷ cols) target cm c h m =
    let (b, good, eq) = check_column-ok (is_some (lookup (normal_name uc) target)) uc _ h in
    ap (λ (v : Validation). lookup c v.column_map) eq
    ∙ check_columns-keeps cols target (put uc (normal_name uc) cm) c good (Maps-put cm uc c m)

check_columns-Checked :
    (cols : List Text) (target cm : List (Text × Text))
    → (check_columns cols target cm).is_ok ≡ true
    → All (Checked target (check_columns cols target cm).column_map) cols
unfolding check_columns
check_columns-Checked [] target cm h = tt
check_columns-Checked (uc ∷ cols) target cm h =
    let (b, good, eq) = check_column-ok (is_some (lookup (normal_name uc) target)) uc _ h in
    let next = check_columns cols target (put uc (normal_name uc) cm) in
    subst (λ (v : Validation). All (Checked target v.column_map) (uc ∷ cols)) (sym eq)
      (
        record {
          is_field = b;
          maps =
              check_columns-keeps cols target (put uc (normal_name uc) cm) uc good
                (Maps-put_here cm uc);
        },
        check_columns-Checked cols target (put uc (normal_name uc) cm) good,
      )

-- the names that a check by name gives the columns, and a mark for each
abbrev pub normal_names : List Text → List Text
normal_names [] = []
normal_names (c ∷ cols) = to_lower (trim_space c) ∷ normal_names cols

abbrev pub marks : List Text → List Text
marks [] = []
marks (c ∷ cols) = codes "?" ∷ marks cols

-- the statement for some columns
abbrev pub insert_of : Text → List Text → Text
insert_of table names =
    codes "INSERT INTO `"
    ++ (table
        ++ (codes "` ("
            ++ (join (codes ", ") names
                ++ (codes ") VALUES (" ++ (join (codes ", ") (marks names) ++ codes ")")))))

target_columns-names :
    (target cm : List (Text × Text)) (cols : List Text)
    → All (Checked target cm) cols
    → target_columns cm cols ≡ normal_names cols
unfolding target_columns mapped_name normal_name
target_columns-names target cm [] h = refl
target_columns-names target cm (c ∷ cols) (p, h) =
    ap (λ o. mapped_name cm c o ∷ target_columns cm cols) p.maps
    ∙ ap (◌∷◌ (normal_name c)) (target_columns-names target cm cols h)

normal_names-IsField :
    (target cm : List (Text × Text)) (cols : List Text)
    → All (Checked target cm) cols
    → All (IsField target) (normal_names cols)
unfolding normal_name
normal_names-IsField target cm [] h = tt
normal_names-IsField target cm (c ∷ cols) (p, h) =
    (p.is_field, normal_names-IsField target cm cols h)

placeholders-marks : (cols : List Text) → placeholders cols ≡ marks (normal_names cols)
unfolding placeholders
placeholders-marks [] = refl
placeholders-marks (c ∷ cols) = ap (◌∷◌ (codes "?")) (placeholders-marks cols)

insert_sql-insert_of :
    (target cm : List (Text × Text)) (table : Text) (cols : List Text)
    → All (Checked target cm) cols
    → insert_sql table cols cm ≡ insert_of table (normal_names cols)
unfolding insert_sql
insert_sql-insert_of target cm table cols h =
    rw (target_columns-names target cm cols h, placeholders-marks cols) refl

-- When the check by name accepts the columns of a file, every call that the import then sends to the
-- database is the INSERT into the table with the names of the columns, without white space around them
-- and in lower case, in their order, and a mark for each; and all these names are fields of the
-- table.
pub basic_column_check-IsField :
    (db : Database) (table : Text) (cols : List Text) (target : List (Text × Text))
    (rows : List (List Text)) (log : List InsertCall)
    → (basic_column_check cols target).is_ok ≡ true
    → All (IsField target) (normal_names cols)
      × Sends
          (insert_of table (normal_names cols))
          log
          (execute_mysql_insert db table cols rows (basic_column_check cols target).column_map log)
unfolding basic_column_check
basic_column_check-IsField db table cols target rows log h =
    let cm = (check_columns cols target []).column_map in
    let checked = check_columns-Checked cols target [] h in
    (
      normal_names-IsField target cm cols checked,
      subst (λ sql. Sends sql log (execute_mysql_insert db table cols rows cm log))
          (insert_sql-insert_of target cm table cols checked)
          (Ended-Sends db (insert_sql table cols cm) rows log 0 _
            (execute_mysql_insert-Ended db table cols rows cm log)),
    )
