-- ===== src/Access/Revocation.antt =====
-- What commands take away for good: dropped databases and replaced accounts
-- (`Catalog::apply` of src/sql/engine/catalog.rs).
use my_sqweel.Prelude.{
  ℕ, Text, List, Option, none, some, Bool, false, ◌||◌, ◌≡◌, ◌≢◌, refl, arith, lookup,
  lookup-insert, lookup-remove, contains-retain, is_some, is_some_and, contains, ok, err,
  if◌then◌else◌, nat_eq, list_eq, list_beq_iff,
}
use my_sqweel.Access.Scope.{
  AuthPrivilege, privilege_eq, Identity, unknown_database, account_replaced,
}
use my_sqweel.Access.Accounts.{
  Account, Catalog, new_account, identity, check_account, check_database, check_privilege,
  check_table, account_permits,
}
use my_sqweel.Access.Admin.{
  CatalogEffect, dropped_database, run_create_database, run_drop_database, run_create_user,
  run_drop_user,
}
use my_sqweel.Access.AdminLaws.{grants-revoke, admin-revoke, holds_grant, user_is_admin}

dropped_state :
    (c : Catalog) (name : Text) (x : Bool) {c' : Catalog}
    → run_drop_database c name x ≡ ok (c', dropped_database name)
    → (contains c'.databases name ≡ false)
      × ((u : Text) → user_is_admin c' u ≡ user_is_admin c u)
      × ((u : Text) → holds_grant c' u name ≡ false)
unfolding run_drop_database
dropped_state c name x {c'} h = (
  ground (arith, contains-retain c.databases name name, list_beq_iff name name),
  λ u. ground (arith, admin-revoke name u name c.users),
  λ u. ground (arith, grants-revoke name u name c.users, list_beq_iff name name),
)

-- Whoever asks, a database that was dropped is unknown.
pub check_database-dropped :
    (c : Catalog) (name : Text) (x : Bool) (i : Identity) {c' : Catalog}
    → run_drop_database c name x ≡ ok (c', dropped_database name)
    → check_database c' i name ≡ err unknown_database
unfolding check_database
check_database-dropped c name x i {c'} h = rw ((dropped_state c name x h).0)

no_grant_no_permit :
    (o : Option Account) (db : Text) (p : AuthPrivilege)
    → is_some_and o (λ a. a.admin) ≡ false
    → is_some_and o (λ a. is_some (lookup db a.grants)) ≡ false
    → is_some_and o (λ a. a.admin || is_some_and (lookup db a.grants) (λ v. contains v p)) ≡ false
no_grant_no_permit none db p h k = refl
no_grant_no_permit (some a) db p h k = ground arith

-- Creating a database again does not bring its old grants back: after DROP DATABASE and CREATE
-- DATABASE of the same name no account but the administrator's has a privilege on it.
pub account_permits-recreated :
    (c : Catalog) (name : Text) (x y : Bool) (cs co : Option Text) (i : Identity)
    (p : AuthPrivilege) {c₁ c₂ : Catalog} {e : CatalogEffect}
    → user_is_admin c i.username ≡ false
    → run_drop_database c name x ≡ ok (c₁, dropped_database name)
    → run_create_database c₁ name y cs co ≡ ok (c₂, e)
    → account_permits c₂ i name p ≡ false
unfolding account_permits run_create_database
account_permits-recreated c name x y cs co i p {c₁} {c₂} plain dropped created =
    let (gone, admins, grants) = dropped_state c name x dropped in
    ground (
      arith,
      admins i.username,
      grants i.username,
      no_grant_no_permit (lookup i.username c₁.users) name p,
    )

check_account-replaced :
    (c : Catalog) (hash : List ℕ → List ℕ) (fresh u pw : Text) (x y : Bool) (i : Identity)
    (db : Text) {c₁ c₂ : Catalog} {e₁ e₂ : CatalogEffect}
    → identity c u ≡ ok i
    → fresh ≢ i.incarnation
    → run_drop_user c u x ≡ ok (c₁, e₁)
    → run_create_user hash fresh c₁ u pw y ≡ ok (c₂, e₂)
    → check_account c₂ i db ≡ err account_replaced
unfolding check_account run_drop_user run_create_user identity
check_account-replaced c hash fresh u pw x y i db {c₁} {c₂} taken new dropped created = ground (
  arith,
  list_beq_iff u u,
  list_beq_iff fresh i.incarnation,
  lookup-remove u u c.users,
  lookup-insert u u (new_account hash fresh pw false) c₁.users,
)

-- The accounts' commands keep the databases, and an account's identity has no outer limit.
same_databases :
    (c : Catalog) (hash : List ℕ → List ℕ) (fresh u pw : Text) (x y : Bool) {c₁ c₂ : Catalog}
    {e₁ e₂ : CatalogEffect}
    → run_drop_user c u x ≡ ok (c₁, e₁)
    → run_create_user hash fresh c₁ u pw y ≡ ok (c₂, e₂)
    → c₂.databases ≡ c.databases
unfolding run_drop_user run_create_user
same_databases c hash fresh u pw x y {c₁} {c₂} dropped created = ground arith

identity-unlimited :
    (c : Catalog) (u : Text) {i : Identity}
    → identity c u ≡ ok i
    → (i.ceiling ≡ none) × (i.external_access ≡ none)
unfolding identity
identity-unlimited c u {i} taken = (ground arith, ground arith)

check_database-replaced :
    (c : Catalog) (hash : List ℕ → List ℕ) (fresh u pw : Text) (x y : Bool) (i : Identity)
    (db : Text) {c₁ c₂ : Catalog} {e₁ e₂ : CatalogEffect}
    → identity c u ≡ ok i
    → fresh ≢ i.incarnation
    → run_drop_user c u x ≡ ok (c₁, e₁)
    → run_create_user hash fresh c₁ u pw y ≡ ok (c₂, e₂)
    → check_database c₂ i db
      ≡ err (if contains c.databases db then account_replaced else unknown_database)
unfolding check_database
check_database-replaced c hash fresh u pw x y i db {c₁} {c₂} taken new dropped created = ground (
  arith,
  same_databases c hash fresh u pw x y dropped created,
  identity-unlimited c u taken,
  check_account-replaced c hash fresh u pw x y i db taken new dropped created,
)

-- An identity taken before its account was dropped and created again is refused everywhere: with a
-- new UUID for the new account, each check of a database, of a privilege on it and of a privilege on a
-- table answers that the account was replaced, or that the database is unknown if it does not exist.
pub check_table-replaced :
    (c : Catalog) (hash : List ℕ → List ℕ) (fresh u pw : Text) (x y : Bool) (i : Identity)
    (db t : Text) (p : AuthPrivilege) {c₁ c₂ : Catalog} {e₁ e₂ : CatalogEffect}
    → identity c u ≡ ok i
    → fresh ≢ i.incarnation
    → run_drop_user c u x ≡ ok (c₁, e₁)
    → run_create_user hash fresh c₁ u pw y ≡ ok (c₂, e₂)
    → let refusal = if contains c.databases db then account_replaced else unknown_database in
      (check_database c₂ i db ≡ err refusal)
      × (check_privilege c₂ i db p ≡ err refusal)
      × (check_table c₂ i db t p ≡ err refusal)
unfolding check_privilege check_table
check_table-replaced c hash fresh u pw x y i db t p {c₁} {c₂} taken new dropped created =
    let refused = check_database-replaced c hash fresh u pw x y i db taken new dropped created in
    (refused, rw refused refl, rw refused refl)
