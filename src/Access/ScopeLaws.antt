-- ===== src/Access/ScopeLaws.antt =====
-- What scopes grant, against the checks of src/sql/engine/catalog.rs that guard a statement.
use my_sqweel.Prelude.{
  Text, List, [], ◌∷◌, ◌++◌, Option, none, some, Bool, true, false, ◌&&◌, ◌||◌, not, ◌≡◌, refl, ◌∙◌,
  arith, Eq, Map, lookup, lookup-insert, contains-append, is_some_and, is_none_or, is_empty, any,
  contains, ◌==◌, is_ok, nat_eq, list_eq, pair_eq, Bool-cases, inl, inr,
}
use my_sqweel.Access.Scope.{
  AuthPrivilege, privilege_eq, Privileges, AuthScope, table, all_scope, database_scope,
  ExternalAccess, privileges_or_empty, extend_entry, covers_database, permits, no_access, add_scope,
  add_scopes, from_scopes, set_ceiling, Identity,
}
use my_sqweel.Access.Accounts.{
  Catalog, check_account, check_database, permits_somewhere, account_permits, check_privilege,
  check_table,
}

-- What one scope grants, by itself.
unfoldable pub scope_grants : AuthScope → Text → Option Text → AuthPrivilege → Bool
scope_grants all_scope db t p = true
scope_grants (database_scope d ps) db t p = (d == db) && contains ps p
scope_grants (table d name ps) db none p = false
scope_grants (table d name ps) db (some t) p = (d == db) && (name == t) && contains ps p

granted-extend {ℓ} :
    {K : Type ℓ} ⦃e : Eq K⦄ (k j : K) (ps : Privileges) (m : Map K Privileges) (p : AuthPrivilege)
    → is_some_and (lookup j (extend_entry k ps m)) (λ v. contains v p)
      ≡ (is_some_and (lookup j m) (λ v. contains v p) || ((k == j) && contains ps p))
granted-extend ⦃e⦄ k j ps m p = elim (Bool-cases (k == j)) [
  | inl same ↦ rw (lookup-insert, same, (e.beq_decides k j).0 same) (on_entry (lookup j m))
  | inr other ↦ rw (lookup-insert, other) (or_false (lookup j m))
]
  where
    on_entry :
        (o : Option Privileges)
        → contains (privileges_or_empty o ++ ps) p
          ≡ (is_some_and o (λ v. contains v p) || (true && contains ps p))
    on_entry none = refl
    on_entry (some v) = contains-append v ps p

    or_false :
        (o : Option Privileges)
        → is_some_and o (λ v. contains v p)
          ≡ (is_some_and o (λ v. contains v p) || (false && contains ps p))
    or_false o = ground arith

permits-add_scope :
    (a : ExternalAccess) (s : AuthScope) (db : Text) (t : Option Text) (p : AuthPrivilege)
    → permits (add_scope a s) db t p ≡ (permits a db t p || scope_grants s db t p)
unfolding permits add_scope scope_grants
permits-add_scope a all_scope db t p = ground arith
permits-add_scope a (database_scope d ps) db t p =
    rw (granted-extend d db ps a.grants p) (ground arith)
permits-add_scope a (table d name ps) db none p = ground arith
permits-add_scope a (table d name ps) db (some t) p =
    rw (granted-extend (d, name) (db, t) ps a.tables p) (ground arith)

permits-add_scopes :
    (ss : List AuthScope) (a : ExternalAccess) (db : Text) (t : Option Text) (p : AuthPrivilege)
    → permits (add_scopes a ss) db t p ≡ (permits a db t p || any (λ s. scope_grants s db t p) ss)
unfolding add_scopes
permits-add_scopes [] a db t p = ground arith
permits-add_scopes (s ∷ ss) a db t p =
    ground (arith, permits-add_scopes ss (add_scope a s) db t p, permits-add_scope a s db t p)

-- The access that is collected from a list of scopes permits a privilege exactly when one of the
-- scopes grants it, whatever their order and however often a database or table is named.
pub permits-from_scopes :
    (ss : List AuthScope) (db : Text) (t : Option Text) (p : AuthPrivilege)
    → permits (from_scopes ss) db t p ≡ any (λ s. scope_grants s db t p) ss
unfolding from_scopes
permits-from_scopes ss db t p = permits-add_scopes ss no_access db t p ∙ nothing t
  where
    nothing :
        (t : Option Text)
        → (permits no_access db t p || any (λ s. scope_grants s db t p) ss)
          ≡ any (λ s. scope_grants s db t p) ss
    nothing t = unfold permits no_access lookup in ground arith

contains-not-empty : (v : Privileges) (p : AuthPrivilege) → contains v p ≡ true → is_empty v ≡ false
contains-not-empty [] p h = cc
contains-not-empty (q ∷ v) p h = refl

-- A privilege that the binding of a table holds is found among all tables of its database.
listed :
    (m : Map (Text × Text) Privileges) (db t : Text) (p : AuthPrivilege)
    → is_some_and (lookup (db, t) m) (λ v. contains v p) ≡ true
    → (any (λ g. (g.0.0 == db) && contains g.1 p) m ≡ true)
      × (any (λ g. (g.0.0 == db) && not (is_empty g.1)) m ≡ true)
unfolding lookup
listed [] db t p h = cc
listed (((d, n), v) ∷ m) db t p h = ground (arith, listed m db t p, contains-not-empty v p)

granted-not-empty :
    (o : Option Privileges) (p : AuthPrivilege)
    → is_some_and o (λ v. contains v p) ≡ true
    → is_some_and o (λ v. not (is_empty v)) ≡ true
granted-not-empty none p h = cc
granted-not-empty (some v) p h = ground (arith, contains-not-empty v p)

-- A privilege on a table implies the weaker tests that `check_privilege` makes before.
pub permits-weaker :
    (a : ExternalAccess) (db t : Text) (p : AuthPrivilege)
    → permits a db (some t) p ≡ true
    → (covers_database a db ≡ true) × (permits_somewhere a db p ≡ true)
unfolding permits covers_database permits_somewhere
permits-weaker a db t p h =
    ground (arith, listed a.tables db t p, granted-not-empty (lookup db a.grants) p)

-- What the subject of an identity may do on a table, the endpoint's ceiling aside.
unfoldable pub subject_permits : Catalog → Identity → Text → Text → AuthPrivilege → Bool
subject_permits c i db t p = elim i.external_access [
  | some access ↦ permits access db (some t) p
  | none ↦ is_ok (check_account c i db) && account_permits c i db p
]

module _ (c : Catalog) (u inc : Text) (db t : Text) (p : AuthPrivilege) where
  -- The identity that the parts spell.
  abbrev with_access : Option ExternalAccess → Option ExternalAccess → Identity
  with_access x k = record { username = u; incarnation = inc; external_access = x; ceiling = k }

  check_table_cases :
      (x k : Option ExternalAccess)
      → is_ok (check_table c (with_access x k) db t p) ≡ (
          contains c.databases db
          && is_none_or k (λ scope. permits scope db (some t) p)
          && subject_permits c (with_access x k) db t p)
  unfolding check_table check_privilege check_database subject_permits
  check_table_cases none none = ground arith
  check_table_cases none (some k) = ground (arith, permits-weaker k db t p)
  check_table_cases (some x) none = ground (arith, permits-weaker x db t p)
  check_table_cases (some x) (some k) =
      ground (arith, permits-weaker x db t p, permits-weaker k db t p)

-- `check_table` succeeds exactly when the database exists, the ceiling, if there is one, permits the
-- privilege on the table, and so does the identity's own access: the scopes of an external identity,
-- or the live account with its grants on the database.
pub check_table_iff :
    (c : Catalog) (i : Identity) (db t : Text) (p : AuthPrivilege)
    → is_ok (check_table c i db t p) ≡ (
        contains c.databases db
        && is_none_or i.ceiling (λ scope. permits scope db (some t) p)
        && subject_permits c i db t p)
check_table_iff c i db t p =
    check_table_cases c i.username i.incarnation db t p i.external_access i.ceiling

-- A connection that an external authenticator gave the scopes `ss`, through an endpoint with the scopes
-- `limit`, may use a table exactly when the database exists, a scope of the endpoint grants it and a
-- scope of its own grants it.
pub check_table-scopes :
    (c : Catalog) (name fresh : Text) (ss limit : List AuthScope) (db t : Text) (p : AuthPrivilege)
    → is_ok (
        check_table c
          (set_ceiling
            (record {
              username = name;
              incarnation = fresh;
              external_access = some (from_scopes ss);
              ceiling = none;
            })
            limit)
          db
          t
          p)
      ≡ (contains c.databases db
          && any (λ s. scope_grants s db (some t) p) limit
          && any (λ s. scope_grants s db (some t) p) ss)
unfolding set_ceiling subject_permits
check_table-scopes c name fresh ss limit db t p =
    check_table_cases c name fresh db t p (some (from_scopes ss)) (some (from_scopes limit))
    ∙ rw (permits-from_scopes ss db (some t) p, permits-from_scopes limit db (some t) p)
