-- ===== src/Access/Tests.antt =====
-- The theorems on accounts and scopes at concrete inputs, and runs of the checks.
use my_sqweel.Prelude.{
  ℕ, ◌%◌, Text, List, [], ◌∷◌, ◌++◌, none, some, true, false, ◌&&◌, ◌≡◌, refl, arith, length,
  lookup, insert, remove, is_some_and, any, contains, ok, err, is_ok, is_some, ◌↔◌, nat_eq, list_eq,
  list_beq, list_beq_iff, if◌then◌else◌,
}
use my_sqweel.Access.Scope.{
  privilege_eq, select, delete, AuthPrivilege-discrete, AuthScope, table, all_scope, database_scope,
  from_scopes, set_ceiling, Identity, account_replaced, unknown_database,
}
use my_sqweel.Access.Accounts.{
  Account, Catalog, new_account, password_hash, xor_bytes, verify_response, authenticate, identity,
  check_database, check_account, check_table, check_privilege, account_permits, is_admin,
  is_current_admin,
}
use my_sqweel.Access.Admin.{
  create_user, no_effect, created_database, dropped_database, revoke_database, guard_command,
  run_create_database, run_drop_database, run_create_user, run_drop_user, run_command, apply,
  charset_or_default, collation_or_default,
}
use my_sqweel.Access.ScopeLaws.{scope_grants, check_table-scopes}
use my_sqweel.Access.AdminLaws.{IsValid, apply-IsValid}
use my_sqweel.Access.Revocation.{account_permits-recreated, check_table-replaced}
use my_sqweel.Access.Passwords.{IsDigest, client_response, verify_response_iff, authenticate-client}

abbrev app : Text
app = b'a' ∷ []

abbrev items : Text
items = b'i' ∷ []

abbrev root : Text
root = b'r' ∷ []

abbrev bob : Text
bob = b'b' ∷ []

-- A digest of 20 equal bytes, which stands for SHA-1.
abbrev toy_hash : List ℕ → List ℕ
toy_hash m =
    let b = length m % 256 in
    b ∷ b ∷ b ∷ b ∷ b ∷ b ∷ b ∷ b ∷ b ∷ b ∷ b ∷ b ∷ b ∷ b ∷ b ∷ b ∷ b ∷ b ∷ b ∷ b ∷ []

toy_hash-IsDigest : IsDigest toy_hash
toy_hash-IsDigest m = omega arith

abbrev boss_account : Account
boss_account = record { incarnation = 1 ∷ []; password_hash = none; admin = true; grants = [] }

abbrev bob_account : Account
bob_account = record {
  incarnation = 2 ∷ [];
  password_hash = some (toy_hash (toy_hash (7 ∷ [])));
  admin = false;
  grants = (app, select ∷ []) ∷ [];
}

abbrev small : Catalog
small = record {
  databases = app ∷ [];
  users = (root, boss_account) ∷ (bob, bob_account) ∷ [];
  database_charsets = [];
  sql_functions = [];
}

abbrev boss_identity : Identity
boss_identity = record {
  username = root;
  incarnation = 1 ∷ [];
  external_access = none;
  ceiling = none;
}

abbrev bob_identity : Identity
bob_identity = record {
  username = bob;
  incarnation = 2 ∷ [];
  external_access = none;
  ceiling = none;
}

abbrev two_scopes : List AuthScope
two_scopes = table app items (select ∷ []) ∷ database_scope bob (delete ∷ []) ∷ []

bob_may_select : is_ok (check_table small bob_identity app items select) ≡ true
unfolding check_table check_privilege check_database check_account account_permits lookup
    AuthPrivilege-discrete
bob_may_select = refl

bob_may_not_delete : is_ok (check_table small bob_identity app items delete) ≡ false
unfolding check_table check_privilege check_database check_account account_permits lookup
    AuthPrivilege-discrete
bob_may_not_delete = refl

check_table-scopes_example :
    is_ok (
      check_table small
        (set_ceiling
          (record {
            username = bob;
            incarnation = 9 ∷ [];
            external_access = some (from_scopes two_scopes);
            ceiling = none;
          })
          (all_scope ∷ []))
        app
        items
        select)
    ≡ (contains (app ∷ []) app
        && any (λ s. scope_grants s app (some items) select) (all_scope ∷ [])
        && any (λ s. scope_grants s app (some items) select) two_scopes)
check_table-scopes_example =
    check_table-scopes small bob (9 ∷ []) two_scopes (all_scope ∷ []) app items select

small_admin : (u : Text) → is_some_and (lookup u small.users) (λ a. a.admin) ≡ (list_beq root u)
unfolding lookup
small_admin u = ground (arith, list_beq_iff root u, list_beq_iff bob u)

small_grants :
    (u db : Text)
    → is_some_and (lookup u small.users) (λ a. is_some (lookup db a.grants)) ≡ true
    → contains small.databases db ≡ true
unfolding lookup
small_grants u db h = ground (arith, list_beq_iff app db)

small_charsets :
    (db : Text)
    → is_some (lookup db small.database_charsets) ≡ true
    → contains small.databases db ≡ true
unfolding lookup
small_charsets db h = cc

small-IsValid : IsValid root small
small-IsValid = record {
  one_admin = small_admin;
  grants_exist = small_grants;
  charsets_exist = small_charsets;
}

abbrev eve : Text
eve = b'e' ∷ []

abbrev with_eve : Catalog
with_eve = record small {
  users =
      (root, boss_account)
      ∷ (bob, bob_account)
      ∷ (eve, new_account toy_hash (3 ∷ []) (5 ∷ []) false)
      ∷ [];
}

eve_created :
    apply toy_hash (3 ∷ []) small boss_identity (create_user eve (5 ∷ []) false)
    ≡ ok (with_eve, no_effect)
unfolding apply guard_command run_command run_create_user lookup insert is_admin is_current_admin
eve_created = refl

apply-IsValid_example : IsValid root with_eve
apply-IsValid_example =
    apply-IsValid root small toy_hash (3 ∷ []) boss_identity (create_user eve (5 ∷ []) false)
      small-IsValid eve_created

abbrev dropped : Catalog
dropped = record {
  databases = [];
  users = (root, boss_account) ∷ (bob, record bob_account { grants = [] }) ∷ [];
  database_charsets = [];
  sql_functions = [];
}

app-dropped : run_drop_database small app false ≡ ok (dropped, dropped_database app)
unfolding run_drop_database revoke_database remove
app-dropped = refl

abbrev recreated : Catalog
recreated = record dropped {
  databases = app ∷ [];
  database_charsets = (app, (7 ∷ [], 8 ∷ [])) ∷ [];
}

app-recreated :
    run_create_database dropped app false (some (7 ∷ [])) (some (8 ∷ []))
    ≡ ok (recreated, created_database app)
unfolding run_create_database insert charset_or_default collation_or_default
app-recreated = refl

bob_is_plain : is_some_and (lookup bob small.users) (λ a. a.admin) ≡ false
unfolding lookup
bob_is_plain = refl

account_permits-recreated_example : account_permits recreated bob_identity app select ≡ false
account_permits-recreated_example =
    account_permits-recreated small app false false (some (7 ∷ [])) (some (8 ∷ [])) bob_identity
      select bob_is_plain app-dropped app-recreated

abbrev without_bob : Catalog
without_bob = record small { users = (root, boss_account) ∷ [] }

abbrev new_bob : Catalog
new_bob = record small {
  users = (root, boss_account) ∷ (bob, new_account toy_hash (6 ∷ []) (5 ∷ []) false) ∷ [];
}

bob_identified : identity small bob ≡ ok bob_identity
unfolding identity lookup
bob_identified = refl

bob_dropped : run_drop_user small bob false ≡ ok (without_bob, no_effect)
unfolding run_drop_user lookup remove
bob_dropped = refl

bob_created :
    run_create_user toy_hash (6 ∷ []) without_bob bob (5 ∷ []) false ≡ ok (new_bob, no_effect)
unfolding run_create_user lookup insert
bob_created = refl

check_table-replaced_example :
    let refusal = if contains small.databases app then account_replaced else unknown_database in
    (check_database new_bob bob_identity app ≡ err refusal)
    × (check_privilege new_bob bob_identity app select ≡ err refusal)
    × (check_table new_bob bob_identity app app select ≡ err refusal)
check_table-replaced_example =
    check_table-replaced small toy_hash (6 ∷ []) bob (5 ∷ []) false false bob_identity app app
      select bob_identified (cc) bob_dropped bob_created

abbrev short_response : List ℕ
short_response = 4 ∷ []

verify_response_iff_example :
    (verify_response toy_hash (toy_hash (7 ∷ [])) (1 ∷ 2 ∷ []) short_response ≡ true) ↔ (
      (length short_response ≡ 20)
      × (toy_hash (xor_bytes short_response (toy_hash (1 ∷ 2 ∷ [] ++ toy_hash (7 ∷ []))))
          ≡ toy_hash (7 ∷ [])))
verify_response_iff_example =
    verify_response_iff toy_hash (toy_hash (7 ∷ [])) (1 ∷ 2 ∷ []) short_response toy_hash-IsDigest
      (omega arith) refl

bob_known : lookup bob small.users ≡ some bob_account
unfolding lookup
bob_known = refl

bob_password : bob_account.password_hash ≡ password_hash toy_hash (7 ∷ [])
unfolding password_hash
bob_password = refl

authenticate-client_example :
    authenticate toy_hash small bob (1 ∷ 2 ∷ []) (client_response toy_hash (7 ∷ []) (1 ∷ 2 ∷ []))
    ≡ true
authenticate-client_example =
    authenticate-client toy_hash small bob (7 ∷ []) (1 ∷ 2 ∷ []) bob_account toy_hash-IsDigest
      bob_known (cc) bob_password
