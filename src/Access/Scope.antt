-- ===== src/Access/Scope.antt =====
-- Scopes of externally authenticated connections and endpoint ceilings
-- (`AuthScope`, `ExternalAccess` and `Identity` of src/sql/engine/catalog.rs).
use my_sqweel.Prelude.{
  Text, List, [], ◌∷◌, ◌++◌, Option, none, some, Bool, true, false, ◌&&◌, ◌||◌, not, Eq,
  eq_of_discrete, Map, lookup, insert, is_some_and, is_empty, any, contains, ◌==◌, Result, ok, err,
  if◌then◌else◌, nat_eq, list_eq, pair_eq,
}

pub data AuthPrivilege : Type 0 where
  select insert_rows update delete create alter drop_objects index references : AuthPrivilege

unfoldable pub AuthPrivilege-discrete : Discrete AuthPrivilege
AuthPrivilege-discrete = hlevel

instance abbrev pub privilege_eq : Eq AuthPrivilege
privilege_eq = eq_of_discrete AuthPrivilege-discrete

-- A set of privileges as a list, in which a repeated element means nothing.
abbrev pub Privileges : Type 0
Privileges = List AuthPrivilege

pub data AuthScope : Type 0 where
  table : Text → Text → Privileges → AuthScope
  all_scope : AuthScope
  database_scope : Text → Privileges → AuthScope

pub record ExternalAccess : Type 0 where
  pub all_access : Bool
  pub grants : Map Text Privileges
  pub tables : Map (Text × Text) Privileges

abbrev pub privileges_or_empty : Option Privileges → Privileges
privileges_or_empty none = []
privileges_or_empty (some v) = v

-- `map.entry(key).or_default().extend(privileges)`.
abbrev pub extend_entry {ℓ} :
    {K : Type ℓ} ⦃e : Eq K⦄ → K → Privileges → Map K Privileges → Map K Privileges
extend_entry k ps m = insert k (privileges_or_empty (lookup k m) ++ ps) m

unfoldable pub covers_database : ExternalAccess → Text → Bool
covers_database a db =
    a.all_access
    || is_some_and (lookup db a.grants) (λ v. not (is_empty v))
    || any (λ g. (g.0.0 == db) && not (is_empty g.1)) a.tables

unfoldable pub permits : ExternalAccess → Text → Option Text → AuthPrivilege → Bool
permits a db t p =
    a.all_access
    || is_some_and (lookup db a.grants) (λ v. contains v p)
    || is_some_and t (λ name. is_some_and (lookup (db, name) a.tables) (λ v. contains v p))

unfoldable pub no_access : ExternalAccess
no_access = record { all_access = false; grants = []; tables = [] }

unfoldable pub add_scope : ExternalAccess → AuthScope → ExternalAccess
add_scope a (table db t ps) = record a { tables = extend_entry (db, t) ps a.tables }
add_scope a all_scope = record a { all_access = true }
add_scope a (database_scope db ps) = record a { grants = extend_entry db ps a.grants }

unfoldable pub add_scopes : ExternalAccess → List AuthScope → ExternalAccess
add_scopes a [] = a
add_scopes a (s ∷ scopes) = add_scopes (add_scope a s) scopes

unfoldable pub from_scopes : List AuthScope → ExternalAccess
from_scopes scopes = add_scopes no_access scopes

pub record Identity : Type 0 where
  pub username : Text
  pub incarnation : Text
  pub external_access : Option ExternalAccess
  pub ceiling : Option ExternalAccess

unfoldable pub set_ceiling : Identity → List AuthScope → Identity
set_ceiling i scopes = record i { ceiling = some (from_scopes scopes) }

unfoldable pub unauthenticated : Identity
unauthenticated = record { username = []; incarnation = []; external_access = none; ceiling = none }

pub data AccessError : Type 0 where
  empty_username access_denied_for_user unknown_database access_denied_for_database : AccessError
  account_replaced command_denied_for_database command_denied_for_table : AccessError
  database_administration_denied administrative_command_denied : AccessError
  database_exists user_exists cannot_drop_administrator unknown_user : AccessError
  cannot_modify_administrator : AccessError

-- `fresh` is the UUID that the call draws.
unfoldable pub external : Text → Text → List AuthScope → Result AccessError Identity
external fresh username scopes =
    if is_empty username
    then err empty_username
    else ok (record {
      username = username;
      incarnation = fresh;
      external_access = some (from_scopes scopes);
      ceiling = none;
    })
