-- ===== src/Access/Admin.antt =====
-- Administrative commands on the catalog: `AdminCommand`, `CatalogEffect` and `Catalog::apply` of
-- src/sql/engine/catalog.rs.
use my_sqweel.Prelude.{
  ℕ, Text, List, [], ◌∷◌, ◌++◌, Option, none, some, Bool, false, ◌&&◌, ◌||◌, not, ◌==◌, Map, lookup,
  insert, remove, is_some, is_some_and, is_none_or, contains, map, retain, Result, ok, err, ensure,
  ok_or, ◌>>=◌, ◌>>◌, if◌then◌else◌, nat_eq, list_eq,
}
use my_sqweel.Access.Scope.{
  AuthPrivilege, create, drop_objects, Privileges, permits, extend_entry, Identity, AccessError,
  database_administration_denied, administrative_command_denied, database_exists, unknown_database,
  user_exists, cannot_drop_administrator, unknown_user, cannot_modify_administrator,
}
use my_sqweel.Access.Accounts.{Account, Catalog, new_account, is_admin, is_current_admin}

pub data AdminCommand : Type 0 where
  -- The name, `if_not_exists`, the character set and the collation.
  create_database : Text → Bool → Option Text → Option Text → AdminCommand
  -- The name and `if_exists`.
  drop_database : Text → Bool → AdminCommand
  -- The user name, the password and `if_not_exists`.
  create_user : Text → Text → Bool → AdminCommand
  drop_user : Text → Bool → AdminCommand
  grant : Text → Text → Privileges → AdminCommand
  revoke_all : Text → AdminCommand

pub data CatalogEffect : Type 0 where
  no_effect : CatalogEffect
  created_database : Text → CatalogEffect
  dropped_database : Text → CatalogEffect

-- The guard of CREATE DATABASE and DROP DATABASE.
unfoldable pub may_administer : Catalog → Identity → Text → AuthPrivilege → Bool
may_administer c i name p =
    is_none_or i.ceiling (λ scope. permits scope name none p) && elim i.external_access [
      | some access ↦ permits access name none p
      | none ↦ is_current_admin c i
    ]

-- The first `match` of `apply`.
unfoldable pub guard_command : Catalog → Identity → AdminCommand → Result AccessError (Unit {0})
guard_command c i (create_database name x cs co) =
    ensure (may_administer c i name create) database_administration_denied
guard_command c i (drop_database name x) =
    ensure (may_administer c i name drop_objects) database_administration_denied
guard_command c i (create_user u pw x) = ensure (is_admin c i) administrative_command_denied
guard_command c i (drop_user u x) = ensure (is_admin c i) administrative_command_denied
guard_command c i (grant u db ps) = ensure (is_admin c i) administrative_command_denied
guard_command c i (revoke_all u) = ensure (is_admin c i) administrative_command_denied

abbrev utf8mb4 : Text
utf8mb4 = b'u' ∷ b't' ∷ b'f' ∷ b'8' ∷ b'm' ∷ b'b' ∷ b'4' ∷ []

abbrev general_ci : Text
general_ci = b'_' ∷ b'g' ∷ b'e' ∷ b'n' ∷ b'e' ∷ b'r' ∷ b'a' ∷ b'l' ∷ b'_' ∷ b'c' ∷ b'i' ∷ []

abbrev latin1 : Text
latin1 = b'l' ∷ b'a' ∷ b't' ∷ b'i' ∷ b'n' ∷ b'1' ∷ []

abbrev swedish_ci : Text
swedish_ci = b'_' ∷ b's' ∷ b'w' ∷ b'e' ∷ b'd' ∷ b'i' ∷ b's' ∷ b'h' ∷ b'_' ∷ b'c' ∷ b'i' ∷ []

unfoldable pub charset_or_default : Option Text → Text
charset_or_default none = latin1
charset_or_default (some cs) = cs

unfoldable pub collation_or_default : Text → Option Text → Text
collation_or_default cs none = if cs == utf8mb4 then utf8mb4 ++ general_ci else latin1 ++ swedish_ci
collation_or_default cs (some co) = co

unfoldable pub run_create_database :
    Catalog → Text → Bool → Option Text → Option Text → Result AccessError (Catalog × CatalogEffect)
run_create_database c name if_not_exists cs co =
    let charset = charset_or_default cs in
    let c' = record c {
      databases = c.databases ++ (name ∷ []);
      database_charsets =
          insert name (charset, collation_or_default charset co) c.database_charsets;
    } in
    if contains c.databases name
    then (if if_not_exists then ok (c, no_effect) else err database_exists)
    else ok (c', created_database name)

-- `for account in self.users.values_mut() { account.grants.remove(&name); }`.
unfoldable pub revoke_database : Text → Text × Account → Text × Account
revoke_database name (u, a) = (u, record a { grants = remove name a.grants })

unfoldable pub run_drop_database :
    Catalog → Text → Bool → Result AccessError (Catalog × CatalogEffect)
run_drop_database c name if_exists =
    let c' = record c {
      databases = retain (λ (db : Text). not (db == name)) c.databases;
      users = map (revoke_database name) c.users;
      database_charsets = remove name c.database_charsets;
      sql_functions = remove name c.sql_functions;
    } in
    if contains c.databases name
    then ok (c', dropped_database name)
    else (if if_exists then ok (c, no_effect) else err unknown_database)

-- `fresh` is the UUID that the call draws.
unfoldable pub run_create_user :
    (List ℕ → List ℕ)
    → Text
    → Catalog
    → Text
    → Text
    → Bool
    → Result AccessError (Catalog × CatalogEffect)
run_create_user hash fresh c username password if_not_exists =
    let c' = record c { users = insert username (new_account hash fresh password false) c.users } in
    if is_some (lookup username c.users)
    then (if if_not_exists then ok (c, no_effect) else err user_exists)
    else ok (c', no_effect)

unfoldable pub run_drop_user : Catalog → Text → Bool → Result AccessError (Catalog × CatalogEffect)
run_drop_user c username if_exists = do
  ensure (not (is_some_and (lookup username c.users) (λ a. a.admin))) cannot_drop_administrator
  ensure (is_some (lookup username c.users) || if_exists) unknown_user
  ok (record c { users = remove username c.users }, no_effect)

-- The part of GRANT and REVOKE that changes one account's grants.
unfoldable pub change_grants :
    Catalog
    → Text
    → (Map Text Privileges → Map Text Privileges)
    → Result AccessError (Catalog × CatalogEffect)
change_grants c username f = do
  account ← ok_or (lookup username c.users) unknown_user
  ensure (not account.admin) cannot_modify_administrator
  ok (
    record c { users = insert username (record account { grants = f account.grants }) c.users },
    no_effect,
  )

unfoldable pub run_command :
    (List ℕ → List ℕ) → Text → Catalog → AdminCommand → Result AccessError (Catalog × CatalogEffect)
run_command hash fresh c (create_database name x cs co) = run_create_database c name x cs co
run_command hash fresh c (drop_database name x) = run_drop_database c name x
run_command hash fresh c (create_user u pw x) = run_create_user hash fresh c u pw x
run_command hash fresh c (drop_user u x) = run_drop_user c u x
run_command hash fresh c (grant u db ps) = do
  ensure (contains c.databases db) unknown_database
  change_grants c u (extend_entry db ps)
run_command hash fresh c (revoke_all u) = change_grants c u (λ g. [])

unfoldable pub apply :
    (List ℕ → List ℕ)
    → Text
    → Catalog
    → Identity
    → AdminCommand
    → Result AccessError (Catalog × CatalogEffect)
apply hash fresh c i command = do guard_command c i command; run_command hash fresh c command
