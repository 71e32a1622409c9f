-- ===== src/Migrate/Again.antt =====
-- internal/migrate: what `Up` leaves to a later run.
use data_flow_agent_hub.Base.{
  Text, same, same_refl, trim_space, any, List, [], ◌∷◌, ◌++◌, true, Option, none, some, ◌≡◌, refl,
  arith, ◌⊎◌, inl, inr, if_cases, ◌∙◌, ap,
}
use data_flow_agent_hub.Migrate.{
  Schema, Backend, record_version, execute_file, apply_file, apply_files, apply_read, up,
}

-- a file that a run passes over
abbrev Done : List Text → Text → Text → Type 0
Done applied name file =
    (any (λ v. same v name) applied ≡ true) ⊎ (same (trim_space file) [] ≡ true)

AllDone : List Text → List (Text × Text) → Type 0
AllDone applied [] = Unit
AllDone applied ((name, file) ∷ files) = Done applied name file × AllDone applied files

-- the versions of one list are among those of another
abbrev Among : List Text → List Text → Type 0
Among vs ws = (name : Text) → any (λ v. same v name) vs ≡ true → any (λ v. same v name) ws ≡ true

Done-Among :
    (vs ws : List Text) (name file : Text) → Among vs ws → Done vs name file → Done ws name file
Done-Among vs ws name file among (inl h) = inl (among name h)
Done-Among vs ws name file among (inr h) = inr h

abbrev After : Text → Text → Schema → Option Text × Schema → Type 0
After name file s out =
    out.0 ≡ none → Done out.1.versions name file × Among s.versions out.1.versions

any-cons :
    (w name : Text) (vs : List Text)
    → any (λ v. same v name) vs ≡ true
    → any (λ v. same v name) (w ∷ vs) ≡ true
any-cons w name vs h = ground (arith, h)

any_head : (name : Text) (vs : List Text) → any (λ v. same v name) (name ∷ vs) ≡ true
any_head name vs = ground (arith, same_refl name)

-- a step of the database, which fails or is followed by another
maybe_cases :
    {A : Type 0} (P : A → Type 0) (o : Option Text) (f : Text → A) (x : A)
    → ((e : Text) → P (f e))
    → (o ≡ none → P x)
    → P (elim o [ some e ↦ f e | none ↦ x ])
maybe_cases P none f x fails next = next refl
maybe_cases P (some e) f x fails next = fails e

maybe_none :
    {A : Type 0} (o : Option Text) (f : Text → A) (x : A)
    → o ≡ none
    → elim o [ some e ↦ f e | none ↦ x ] ≡ x
maybe_none none f x h = refl
maybe_none (some e) f x h = cc

record_version-After :
    (back : Backend) (name file : Text) (s : Schema)
    → After name file s (record_version back name s)
unfolding record_version
record_version-After back name file s =
    maybe_cases (After name file s) (back.record_fails name) _ _ (λ e h. cc)
      (λ _ h. (inl (any_head name s.versions), λ n. any-cons name n s.versions))

execute_file-After :
    (back : Backend) (name sql file : Text) (s : Schema)
    → After name file s (execute_file back name sql s)
unfolding execute_file
execute_file-After back name sql file s =
    maybe_cases (After name file s) (back.exec_fails name) _ _ (λ e h. cc)
      (λ _. record_version-After back name file (record s { executed = s.executed ++ (sql ∷ []) }))

apply_file-After :
    (back : Backend) (applied : List Text) (name file : Text) (s : Schema)
    → Among applied s.versions
    → After name file s (apply_file back applied name file s)
unfolding apply_file
apply_file-After back applied name file s among =
    if_cases (After name file s) (any (λ v. same v name) applied) _ _
      (λ h k. (inl (among name h), λ n i. i))
      (λ _.
        if_cases (After name file s) (same (trim_space file) []) _ _ (λ h k. (inr h, λ n i. i))
          (λ _. execute_file-After back name (trim_space file) file s))

abbrev Finished : List (Text × Text) → Schema → Option Text × Schema → Type 0
Finished files s out = out.0 ≡ none → AllDone out.1.versions files × Among s.versions out.1.versions

apply_files-Finished :
    (back : Backend) (applied : List Text) (files : List (Text × Text)) (s : Schema)
    → Among applied s.versions
    → Finished files s (apply_files back applied files s)
unfolding apply_files AllDone
apply_files-Finished back applied [] s among = λ h. (tt, λ n i. i)
apply_files-Finished back applied ((name, file) ∷ files) s among =
    let out = apply_file back applied name file s in
    maybe_cases (Finished ((name, file) ∷ files) s) out.0 _ _ (λ e h. cc)
      (λ went h.
        let (done, grown) = apply_file-After back applied name file s among went in
        let (rest, more) =
          apply_files-Finished back applied files out.1 (λ n i. grown n (among n i)) h in
        ((Done-Among _ _ name file more done, rest), λ n i. more n (grown n i)))

apply_file-Done :
    (back : Backend) (applied : List Text) (name file : Text) (s : Schema)
    → Done applied name file
    → apply_file back applied name file s ≡ (none, s)
unfolding apply_file
apply_file-Done back applied name file s (inl h) = rw h refl
apply_file-Done back applied name file s (inr h) =
    if_cases (λ o. o ≡ (none, s)) (any (λ v. same v name) applied) _ _ (λ _. refl) (λ _. rw h refl)

-- what is read are versions of the table
abbrev pub ReadsVersions : Backend → Type 0
ReadsVersions back = (vs : List Text) → Among (back.read vs).0 vs

apply_read-Finished :
    (back : Backend) (files : List (Text × Text)) (r : List Text × Option Text) (s : Schema)
    → Among r.0 s.versions
    → Finished files s (apply_read back files r s)
unfolding apply_read
apply_read-Finished back files (applied, some e) s among = λ h. cc
apply_read-Finished back files (applied, none) s among =
    apply_files-Finished back applied files s among

apply_files-AllDone :
    (back : Backend) (applied : List Text) (files : List (Text × Text)) (s : Schema)
    → AllDone applied files
    → apply_files back applied files s ≡ (none, s)
unfolding apply_files AllDone
apply_files-AllDone back applied [] s done = refl
apply_files-AllDone back applied ((name, file) ∷ files) s (d, done) =
    let e = apply_file-Done back applied name file s d in
    maybe_none (apply_file back applied name file s).0 _ _ (ap (λ o. o.0) e)
    ∙ (ap (λ o. apply_files back applied files o.1) e
        ∙ apply_files-AllDone back applied files s done)

up-Finished :
    (back : Backend) (files : List (Text × Text)) (s : Schema)
    → ReadsVersions back
    → Finished files s (up back files s)
unfolding up
up-Finished back files s reads =
    maybe_cases (Finished files s) back.create_fails _ _ (λ e h. cc)
      (λ _.
        maybe_cases (Finished files s) back.query_fails _ _ (λ e h. cc)
          (λ _. apply_read-Finished back files (back.read s.versions) s (reads s.versions)))

up-applies :
    (back : Backend) (files : List (Text × Text)) (s : Schema)
    → back.create_fails ≡ none
    → back.query_fails ≡ none
    → back.read s.versions ≡ (s.versions, none)
    → up back files s ≡ apply_files back s.versions files s
unfolding up apply_read
up-applies back files s create query all =
    maybe_none back.create_fails _ _ create
    ∙ (maybe_none back.query_fails _ _ query ∙ ap (λ r. apply_read back files r s) all)

-- When Up has ended without an error, a later run over the same files succeeds and changes nothing,
-- whatever the database would answer to a migration: no file is executed again and no version is
-- recorded twice. (The first run reads versions of the table, not necessarily
-- all of them; for the later run the table is taken to be there and to be read in full.)
pub up-again :
    (back later : Backend) (files : List (Text × Text)) (s : Schema)
    → ReadsVersions back
    → (up back files s).0 ≡ none
    → later.create_fails ≡ none
    → later.query_fails ≡ none
    → later.read (up back files s).1.versions ≡ ((up back files s).1.versions, none)
    → up later files (up back files s).1 ≡ (none, (up back files s).1)
up-again back later files s reads h create query all =
    let s' = (up back files s).1 in
    up-applies later files s' create query all
    ∙ apply_files-AllDone later s'.versions files s' (up-Finished back files s reads h).0
