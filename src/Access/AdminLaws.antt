-- ===== src/Access/AdminLaws.antt =====
-- What administrative commands keep and what they revoke (`Catalog::apply` of src/sql/engine/catalog.rs).
use my_sqweel.Prelude.{
  ℕ, Text, List, [], ◌∷◌, ◌++◌, Option, none, Bool, true, false, ◌&&◌, not, ◌≡◌, ◌⊎◌, refl, arith,
  Map, lookup, remove, lookup-insert, lookup-remove, lookup-cons, contains-snoc, contains-retain,
  is_some, is_some_and, contains, map, ◌==◌, ok, nat_eq, list_eq, Bool-cases, Option-cases, inl,
  inr, list_beq_iff, >>=-eq-ok,
}
use my_sqweel.Access.Scope.{Privileges, Identity, extend_entry, privileges_or_empty}
use my_sqweel.Access.Accounts.{Account, Catalog, new_account}
use my_sqweel.Access.Admin.{
  AdminCommand, create_database, drop_database, create_user, drop_user, grant, revoke_all,
  CatalogEffect, charset_or_default, collation_or_default, guard_command, run_create_database,
  revoke_database, run_drop_database, run_create_user, run_drop_user, change_grants, run_command,
  apply,
}

abbrev pub user_is_admin : Catalog → Text → Bool
user_is_admin c u = is_some_and (lookup u c.users) (λ a. a.admin)

abbrev pub holds_grant : Catalog → Text → Text → Bool
holds_grant c u db = is_some_and (lookup u c.users) (λ a. is_some (lookup db a.grants))

-- A catalog is valid for the administrator `boss`: that account and no other is an administrator,
-- grants name existing databases, and so do the recorded character sets.
pub record IsValid (boss : Text) (c : Catalog) : Type 0 where
  pub one_admin : (u : Text) → user_is_admin c u ≡ (boss == u)
  pub grants_exist : (u db : Text) → holds_grant c u db ≡ true → contains c.databases db ≡ true
  pub charsets_exist :
      (db : Text) → is_some (lookup db c.database_charsets) ≡ true → contains c.databases db ≡ true

no_grants : (db : Text) → ◌≡◌ {A = Option Privileges} (lookup db []) none
unfolding lookup
no_grants db = refl

revoke_pair :
    (name w : Text) (a : Account)
    → revoke_database name (w, a) ≡ (w, record a { grants = remove name a.grants })
unfolding revoke_database
revoke_pair name w a = refl

module _ (name u db : Text) where
  pub admin-revoke :
      (users : Map Text Account)
      → is_some_and (lookup u (map (revoke_database name) users)) (λ a. a.admin)
        ≡ is_some_and (lookup u users) (λ a. a.admin)
  unfolding lookup revoke_database
  admin-revoke [] = refl
  admin-revoke ((w, a) ∷ users) = ground (arith, admin-revoke users)

  pub grants-revoke :
      (users : Map Text Account)
      → is_some_and
          (lookup u (map (revoke_database name) users))
          (λ a. is_some (lookup db a.grants))
        ≡ (is_some_and (lookup u users) (λ a. is_some (lookup db a.grants)) && not (name == db))
  grants-revoke [] = unfold lookup in refl
  grants-revoke ((w, a) ∷ users) =
      let a' : Account = record a { grants = remove name a.grants } in
      ground (
        arith,
        grants-revoke users,
        lookup-remove name db a.grants,
        lookup-cons u w a users,
        lookup-cons u w a' (map (revoke_database name) users),
        revoke_pair name w a,
      )

module _ (boss : Text) (c : Catalog) (v : IsValid boss c) {c' : Catalog} {e : CatalogEffect} where
  create_database-IsValid :
      (name : Text) (x : Bool) (cs co : Option Text)
      → run_create_database c name x cs co ≡ ok (c', e)
      → IsValid boss c'
  unfolding run_create_database
  create_database-IsValid name x cs co h = record {
    one_admin = λ u. ground (arith, v.one_admin u);
    grants_exist = λ u db g. ground (arith, v.grants_exist u db, contains-snoc c.databases name db);
    charsets_exist = λ db g. ground (
      arith,
      v.charsets_exist db,
      contains-snoc c.databases name db,
      lookup-insert name db (charset_or_default cs, collation_or_default (charset_or_default cs) co)
          c.database_charsets,
    );
  }

  drop_database-IsValid :
      (name : Text) (x : Bool) → run_drop_database c name x ≡ ok (c', e) → IsValid boss c'
  unfolding run_drop_database
  drop_database-IsValid name x h = record {
    one_admin = λ u. ground (arith, v.one_admin u, admin-revoke name u name c.users);
    grants_exist = λ u db g. ground (
      arith,
      v.grants_exist u db,
      contains-retain c.databases name db,
      grants-revoke name u db c.users,
    );
    charsets_exist = λ db g. ground (
      arith,
      v.charsets_exist db,
      contains-retain c.databases name db,
      lookup-remove name db c.database_charsets,
    );
  }

  create_user-IsValid :
      (hash : List ℕ → List ℕ) (fresh u pw : Text) (x : Bool)
      → run_create_user hash fresh c u pw x ≡ ok (c', e)
      → IsValid boss c'
  unfolding run_create_user
  create_user-IsValid hash fresh u pw x h = record {
    one_admin = λ w. ground (
      arith,
      v.one_admin w,
      v.one_admin u,
      list_beq_iff u w,
      lookup-insert u w (new_account hash fresh pw false) c.users,
    );
    grants_exist = λ w db g. ground (
      arith,
      v.grants_exist w db,
      lookup-insert u w (new_account hash fresh pw false) c.users,
      no_grants db,
    );
    charsets_exist = λ db g. ground (arith, v.charsets_exist db);
  }

  drop_user-IsValid : (u : Text) (x : Bool) → run_drop_user c u x ≡ ok (c', e) → IsValid boss c'
  unfolding run_drop_user
  drop_user-IsValid u x h = record {
    one_admin = λ w.
        ground (arith, v.one_admin w, v.one_admin u, list_beq_iff u w, lookup-remove u w c.users);
    grants_exist = λ w db g. ground (arith, v.grants_exist w db, lookup-remove u w c.users);
    charsets_exist = λ db g. ground (arith, v.charsets_exist db);
  }

  -- `f` may add bindings of existing databases only.
  change_grants-IsValid :
      (u : Text) (f : Map Text Privileges → Map Text Privileges)
      → ((db : Text) (g : Map Text Privileges)
          → is_some (lookup db (f g)) ≡ true
          → (is_some (lookup db g) ≡ true) ⊎ (contains c.databases db ≡ true))
      → change_grants c u f ≡ ok (c', e)
      → IsValid boss c'
  unfolding change_grants
  change_grants-IsValid u f adds h = elim (Option-cases (lookup u c.users)) [
    | inl missing ↦ ground arith
    | inr (a, found) ↦
        let a' : Account = record a { grants = f a.grants } in
        record {
          one_admin =
              λ w. ground (arith, v.one_admin w, list_beq_iff u w, lookup-insert u w a' c.users);
          grants_exist = λ w db g. ground (
            arith,
            v.grants_exist w db,
            list_beq_iff u w,
            adds db a.grants,
            lookup-insert u w a' c.users,
          );
          charsets_exist = λ db g. ground (arith, v.charsets_exist db);
        }
  ]

extend_entry_adds :
    (c : Catalog) (db : Text) (ps : Privileges)
    → contains c.databases db ≡ true
    → (d : Text) (g : Map Text Privileges) → is_some (lookup d (extend_entry db ps g)) ≡ true
    → (is_some (lookup d g) ≡ true) ⊎ (contains c.databases d ≡ true)
extend_entry_adds c db ps known d g h =
    ground
      (arith, list_beq_iff db d, lookup-insert db d (privileges_or_empty (lookup db g) ++ ps) g)

none_added :
    (c : Catalog) (d : Text) (g : Map Text Privileges)
    → is_some (lookup {V = Privileges} d []) ≡ true
    → (is_some (lookup d g) ≡ true) ⊎ (contains c.databases d ≡ true)
none_added c d g h = ground (arith, no_grants d)

run_command-IsValid :
    (boss : Text) (c : Catalog) (hash : List ℕ → List ℕ) (fresh : Text) (command : AdminCommand)
    {c' : Catalog} {e : CatalogEffect}
    → IsValid boss c
    → run_command hash fresh c command ≡ ok (c', e)
    → IsValid boss c'
unfolding run_command
run_command-IsValid boss c hash fresh (create_database name x cs co) v h =
    create_database-IsValid boss c v name x cs co h
run_command-IsValid boss c hash fresh (drop_database name x) v h =
    drop_database-IsValid boss c v name x h
run_command-IsValid boss c hash fresh (create_user u pw x) v h =
    create_user-IsValid boss c v hash fresh u pw x h
run_command-IsValid boss c hash fresh (drop_user u x) v h = drop_user-IsValid boss c v u x h
run_command-IsValid boss c hash fresh (revoke_all u) v h =
    change_grants-IsValid boss c v u (λ g. []) (none_added c) h
run_command-IsValid boss c hash fresh (grant u db ps) v h =
    elim (Bool-cases (contains c.databases db)) [
      | inl known ↦
          change_grants-IsValid boss c v u (extend_entry db ps) (extend_entry_adds c db ps known)
            (rw known at h)
      | inr unknown ↦ ground arith
    ]

-- A successful command keeps the catalog valid: the bootstrap administrator stays the only one, and
-- grants and character sets are recorded for existing databases only.
pub apply-IsValid :
    (boss : Text) (c : Catalog) (hash : List ℕ → List ℕ) (fresh : Text) (i : Identity)
    (command : AdminCommand) {c' : Catalog} {e : CatalogEffect}
    → IsValid boss c
    → apply hash fresh c i command ≡ ok (c', e)
    → IsValid boss c'
unfolding apply
apply-IsValid boss c hash fresh i command {c'} {e} v h =
    let ran = >>=-eq-ok (guard_command c i command) (λ _. run_command hash fresh c command) h in
    run_command-IsValid boss c hash fresh command v ran.2
