-- ===== src/Handlers/Datasets/Access.antt =====
-- internal/handlers/datasets.go: what the handlers do to the access of users.
use data_flow_agent_hub.Base.{
  ℕ, Text, codes, same, same_iff, same_refl, lookup, lookup-put, lookup-remove, ltb, List, [], ◌∷◌,
  Bool, true, false, not, ◌&&◌, ◌||◌, Option, none, some, if◌then◌else◌, ◌≡◌, ◌∙◌, ap, refl, inl,
  inr, arith, Bool-cases, if_cases,
}
use data_flow_agent_hub.Rbac.{super_admin}
use data_flow_agent_hub.Handlers.{Reply, guard}
use data_flow_agent_hub.Handlers.Users.{Claims}
use data_flow_agent_hub.Handlers.DataSql.{
  Dataset, Permission, Catalog, not_deleted, grants_access, count_permissions, has_dataset_access,
}
use data_flow_agent_hub.Handlers.Datasets.{
  Backend, refused_caller, drop_permission, without_permission, set_dataset, ok_message,
  revoke_body, revoke_dataset_access,
}
use data_flow_agent_hub.Handlers.Datasets.Databases.{
  State, mark_deleted, mark_and_close, drop_of, delete_found, delete_dataset,
}
use data_flow_agent_hub.Mysqlmgr.{Manager, get_pool, close, close_found, close_pool}

-- nobody but a super_admin has access by the count
access-none :
    (cat : Catalog) (user dataset role : Text)
    → same role super_admin ≡ false
    → count_permissions cat dataset user cat.permissions ≡ 0
    → has_dataset_access cat user dataset role ≡ false
unfolding has_dataset_access
access-none cat user dataset role low none_counted =
    if_cases (λ (b : Bool). b ≡ false) (same user [] || same dataset []) false _ (λ e. refl)
      (λ e.
        ap
          (λ b.
            if b
            then true
            else (not cat.count_fails
                && ltb 0 (count_permissions cat dataset user cat.permissions)))
          low
        ∙ ap (λ n. not cat.count_fails && ltb 0 n) none_counted
        ∙ ground arith)

grants_access-other :
    (cat : Catalog) (dataset user : Text) (p : Permission)
    → (same p.dataset_id dataset && same p.user_id user) ≡ false
    → grants_access cat dataset user p ≡ false
unfolding grants_access
grants_access-other cat dataset user p e = ground (arith, e)

count-drop :
    (cat : Catalog) (dataset user : Text) (ps : List Permission)
    → count_permissions cat dataset user (drop_permission dataset user ps) ≡ 0
unfolding count_permissions drop_permission
count-drop cat dataset user [] = refl
count-drop cat dataset user (p ∷ ps) =
    if_cases (λ (x : List Permission). count_permissions cat dataset user x ≡ 0)
      (same p.dataset_id dataset && same p.user_id user) (drop_permission dataset user ps)
      (p ∷ drop_permission dataset user ps) (λ e. count-drop cat dataset user ps)
      (λ e.
        ground (arith, grants_access-other cat dataset user p e, count-drop cat dataset user ps))

grants_access-deleted :
    (cat : Catalog) (dataset user : Text) (p : Permission)
    → not_deleted (lookup dataset cat.datasets) ≡ false
    → grants_access cat dataset user p ≡ false
unfolding grants_access
grants_access-deleted cat dataset user p e = elim (Bool-cases (same p.dataset_id dataset)) [
  | inl at ↦
      let gone : not_deleted (lookup p.dataset_id cat.datasets) ≡ false =
        ap (λ t. not_deleted (lookup t cat.datasets)) ((same_iff p.dataset_id dataset).0 at) ∙ e in
      ground (arith, gone)
  | inr off ↦ ground (arith, off)
]

count-deleted :
    (cat : Catalog) (dataset user : Text) (ps : List Permission)
    → not_deleted (lookup dataset cat.datasets) ≡ false
    → count_permissions cat dataset user ps ≡ 0
unfolding count_permissions
count-deleted cat dataset user [] e = refl
count-deleted cat dataset user (p ∷ ps) e =
    ground (arith, grants_access-deleted cat dataset user p e, count-deleted cat dataset user ps e)

-- what a reply of success tells
abbrev pub Succeeds : Text → Reply → Type 0
Succeeds message r = r ≡ ok_message message

guard-Succeeds :
    {S : Type 0} (P : S → Type 0) (message : Text) (b : Bool) (status : ℕ) (e : Text) (s : S)
    (rest : Reply × S)
    → (Succeeds message rest.0 → P rest.1)
    → Succeeds message (guard b status e s rest).0
    → P (guard b status e s rest).1
guard-Succeeds P message true status e s rest next good =
    absurd (unfold guard ok_message in cc good)
guard-Succeeds P message false status e s rest next good = unfold guard in next good

-- no access to a data set for the role
abbrev pub NoAccess : Text → Text → Text → Catalog → Type 0
NoAccess user dataset role cat = has_dataset_access cat user dataset role ≡ false

without_permission-NoAccess :
    (user dataset role : Text) (cat : Catalog)
    → same role super_admin ≡ false
    → NoAccess user dataset role (without_permission dataset user cat)
unfolding without_permission
without_permission-NoAccess user dataset role cat low =
    access-none _ user dataset role low (count-drop _ dataset user cat.permissions)

-- When a request to revoke the access of a user to a data set is answered by success, that user has no
-- access to it any more, whatever was granted before and at whatever level, unless as a super_admin.
pub revoke_dataset_access-NoAccess :
    (back : Backend) (claims : Option Claims) (dataset user role : Text) (cat : Catalog)
    → same role super_admin ≡ false
    → Succeeds (codes "revoked") (revoke_dataset_access back claims dataset (some user) cat).0
    → NoAccess user dataset role (revoke_dataset_access back claims dataset (some user) cat).1
unfolding revoke_dataset_access revoke_body
revoke_dataset_access-NoAccess back claims dataset user role cat low =
    guard-Succeeds (NoAccess user dataset role) (codes "revoked") (refused_caller claims) _ _ cat _
      (guard-Succeeds (NoAccess user dataset role) (codes "revoked") (same dataset []) _ _ cat _ (
        guard-Succeeds (NoAccess user dataset role) (codes "revoked") (same user []) _ _ cat _ (
          guard-Succeeds (NoAccess user dataset role) (codes "revoked") back.exec_fails _ _ cat _
            (λ good. without_permission-NoAccess user dataset role cat low))))

set_dataset-deleted :
    (dataset : Text) (d : Dataset) (cat : Catalog)
    → not_deleted (lookup dataset (set_dataset dataset mark_deleted (some d) cat).datasets) ≡ false
unfolding set_dataset
set_dataset-deleted dataset d cat =
    ap not_deleted (
      lookup-put dataset dataset (mark_deleted d) cat.datasets
      ∙ ap (λ b. if b then some (mark_deleted d) else lookup dataset cat.datasets)
          (same_refl dataset))
    ∙ (unfold not_deleted mark_deleted in ap not (same_refl (codes "deleted")))

-- no access for a role, and no pool
abbrev pub IsGone : Text → Text → Text → State → Type 0
IsGone user dataset role s =
    NoAccess user dataset role s.catalog × (get_pool dataset s.manager ≡ none)

close-none : (id : Text) (m : Manager) → get_pool id (close id m) ≡ none
unfolding get_pool close close_found close_pool
close-none id m = closed (lookup id m.pools) refl
  where
    closed : (o : Option ℕ) → lookup id m.pools ≡ o → lookup id (close_found o id m).pools ≡ none
    closed none h = h
    closed (some p) h =
        lookup-remove id id m.pools ∙ ap (λ b. if b then none else lookup id m.pools) (same_refl id)

delete_found-IsGone :
    (back : Backend) (dataset user role : Text) (o : Option Dataset) (s : State)
    → same role super_admin ≡ false
    → Succeeds (codes "deleted") (delete_found back dataset o s).0
    → IsGone user dataset role (delete_found back dataset o s).1
unfolding delete_found mark_and_close
delete_found-IsGone back dataset user role none s low =
    λ good. absurd (unfold ok_message in cc good)
delete_found-IsGone back dataset user role (some d) s low =
    guard-Succeeds (IsGone user dataset role) (codes "deleted") back.select_fails _ _ s _ (
      guard-Succeeds (IsGone user dataset role) (codes "deleted") back.exec_fails _ _
        (drop_of back d s) _
        (λ good. (
          access-none _ user dataset role low
              (count-deleted _ dataset user _ (set_dataset-deleted dataset d _)),
          close-none dataset _,
        )))

-- When a request to delete a data set is answered by success, no user has access to it any more but
-- super_admins, also those whose grants are still stored, and there is no pool for it.
pub delete_dataset-NoAccess :
    (back : Backend) (claims : Option Claims) (dataset user role : Text) (s : State)
    → same role super_admin ≡ false
    → Succeeds (codes "deleted") (delete_dataset back claims dataset s).0
    → NoAccess user dataset role (delete_dataset back claims dataset s).1.catalog
      × (get_pool dataset (delete_dataset back claims dataset s).1.manager ≡ none)
unfolding delete_dataset
delete_dataset-NoAccess back claims dataset user role s low =
    guard-Succeeds (IsGone user dataset role) (codes "deleted") (refused_caller claims) _ _ s _ (
      guard-Succeeds (IsGone user dataset role) (codes "deleted") (same dataset []) _ _ s _
        (delete_found-IsGone back dataset user role (lookup dataset s.catalog.datasets) s low))
