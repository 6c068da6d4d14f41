-- ===== src/Access/Accounts.antt =====
-- `Account` and `Catalog` of src/sql/engine/catalog.rs: authentication, and the checks of privileges.
use Prim.Native.Nat.{bit_or, bit_xor}
use my_sqweel.Prelude.{
  ℕ, Text, List, [], ◌∷◌, ◌++◌, Option, none, some, Bool, true, false, ◌&&◌, ◌||◌, not, eqb, length,
  ◌==◌, Map, lookup, insert, is_some_and, is_none_or, is_empty, any, contains, retain, Result, ok,
  err, ensure, ok_or, is_ok, ◌>>=◌, ◌>>◌, if◌then◌else◌, nat_eq, list_eq,
}
use my_sqweel.Access.Scope.{
  AuthPrivilege, select, insert_rows, update, delete, create, alter, drop_objects, index,
  references, Privileges, privilege_eq, ExternalAccess, covers_database, permits, Identity,
  unauthenticated, AccessError, access_denied_for_user, unknown_database,
  access_denied_for_database, account_replaced, command_denied_for_database,
  command_denied_for_table,
}

-- `hash` is SHA-1, which the program takes from a library.
module _ (hash : List ℕ → List ℕ) where
  unfoldable pub password_hash : Text → Option (List ℕ)
  password_hash password = if is_empty password then none else some (hash (hash password))

pub record Account : Type 0 where
  pub incarnation : Text
  pub password_hash : Option (List ℕ)
  pub admin : Bool
  pub grants : Map Text Privileges

pub record Catalog : Type 0 where
  pub databases : List Text
  pub users : Map Text Account
  pub database_charsets : Map Text (Text × Text)
  -- The definitions of SQL functions, each by its text.
  pub sql_functions : Map Text (Map Text Text)

-- `fresh` is the UUID that the account gets.
abbrev pub new_account : (List ℕ → List ℕ) → Text → Text → Bool → Account
new_account hash fresh password admin = record {
  incarnation = fresh;
  password_hash = password_hash hash password;
  admin = admin;
  grants = [];
}

-- `users.retain(|_, account| !account.admin)`, then the new administrator.
unfoldable pub set_admin_credentials : (List ℕ → List ℕ) → Text → Catalog → Text → Text → Catalog
set_admin_credentials hash fresh c username password = record c {
  users =
      insert username (new_account hash fresh password true)
        (retain (λ (u : Text × Account). not u.1.admin) c.users);
}

app : Text
app = b'a' ∷ b'p' ∷ b'p' ∷ []

root : Text
root = b'r' ∷ b'o' ∷ b'o' ∷ b't' ∷ []

unfoldable pub default_catalog : (List ℕ → List ℕ) → Text → Catalog
unfolding app root
default_catalog hash fresh =
    set_admin_credentials hash fresh
      (record { databases = app ∷ []; users = []; database_charsets = []; sql_functions = [] }) root
      []

-- `std::array::from_fn(|index| left[index] ^ right[index])`, on two lists of bytes.
unfoldable pub xor_bytes : List ℕ → List ℕ → List ℕ
xor_bytes [] bs = []
xor_bytes (a ∷ as') [] = []
xor_bytes (a ∷ as') (b ∷ bs) = bit_xor a b ∷ xor_bytes as' bs

-- `fold(0u8, |difference, (left, right)| difference | (*left ^ right))` over the zipped lists.
unfoldable pub difference : ℕ → List ℕ → List ℕ → ℕ
difference d [] bs = d
difference d (a ∷ as') [] = d
difference d (a ∷ as') (b ∷ bs) = difference (bit_or d (bit_xor a b)) as' bs

-- The comparison of a native password response with the stored hash `expected`.
unfoldable pub verify_response : (List ℕ → List ℕ) → List ℕ → List ℕ → List ℕ → Bool
verify_response hash expected salt response =
    let mask = hash (salt ++ expected) in
    let actual = hash (xor_bytes response mask) in
    if eqb (length response) 20 then eqb (difference 0 actual expected) 0 else false

unfoldable pub authenticate : (List ℕ → List ℕ) → Catalog → Text → List ℕ → List ℕ → Bool
authenticate hash c username salt response = elim (lookup username c.users) [
  | none ↦ false
  | some account ↦ elim account.password_hash [
    | none ↦ is_empty response
    | some expected ↦ verify_response hash expected salt response
  ]
]

unfoldable pub identity : Catalog → Text → Result AccessError Identity
identity c username = do
  account ← ok_or (lookup username c.users) access_denied_for_user
  ok (record {
    username = username;
    incarnation = account.incarnation;
    external_access = none;
    ceiling = none;
  })

-- `users.iter().find(|(_, account)| account.admin)`.
unfoldable pub find_admin : Map Text Account → Option Text
find_admin [] = none
find_admin ((name, account) ∷ users) = if account.admin then some name else find_admin users

unfoldable pub administrator_identity : Catalog → Identity
administrator_identity c = elim (find_admin c.users) [
  | none ↦ unauthenticated
  | some name ↦ elim (identity c name) [ ok i ↦ i | err e ↦ unauthenticated ]
]

-- The account exists, is the administrator's and was not replaced since the identity was taken.
unfoldable pub is_current_admin : Catalog → Identity → Bool
is_current_admin c i =
    is_some_and (lookup i.username c.users) (λ a. a.admin && (a.incarnation == i.incarnation))

unfoldable pub is_admin : Catalog → Identity → Bool
is_admin c i =
    if is_some_and i.ceiling (λ scope. not scope.all_access)
    then false
    else elim i.external_access [ some access ↦ access.all_access | none ↦ is_current_admin c i ]

-- The part of `check_database` for an identity with an account.
unfoldable pub check_account : Catalog → Identity → Text → Result AccessError (Unit {0})
check_account c i db = do
  account ← ok_or (lookup i.username c.users) access_denied_for_user
  ensure (account.incarnation == i.incarnation) account_replaced
  ensure (account.admin || is_some_and (lookup db account.grants) (λ v. not (is_empty v)))
      access_denied_for_database

unfoldable pub check_database : Catalog → Identity → Text → Result AccessError (Unit {0})
check_database c i db = do
  ensure (contains c.databases db) unknown_database
  ensure (is_none_or i.ceiling (λ scope. covers_database scope db)) access_denied_for_database
  elim i.external_access [
    | some access ↦ ensure (covers_database access db) access_denied_for_database
    | none ↦ check_account c i db
  ]

-- The closure `permits` of `check_privilege`: the privilege on the database, or on a table of it.
unfoldable pub permits_somewhere : ExternalAccess → Text → AuthPrivilege → Bool
permits_somewhere a db p =
    permits a db none p || any (λ g. (g.0.0 == db) && contains g.1 p) a.tables

-- `self.users[&identity.username]` cannot fail there, since `check_database` looked the user up.
unfoldable pub account_permits : Catalog → Identity → Text → AuthPrivilege → Bool
account_permits c i db p =
    is_some_and (lookup i.username c.users)
      (λ a. a.admin || is_some_and (lookup db a.grants) (λ v. contains v p))

unfoldable pub check_privilege :
    Catalog → Identity → Text → AuthPrivilege → Result AccessError (Unit {0})
check_privilege c i db p = do
  check_database c i db
  ensure (is_none_or i.ceiling (λ scope. permits_somewhere scope db p)) command_denied_for_database
  elim i.external_access [
    | some access ↦ ensure (permits_somewhere access db p) command_denied_for_database
    | none ↦ ensure (account_permits c i db p) command_denied_for_database
  ]

unfoldable pub check_database_privilege :
    Catalog → Identity → Text → AuthPrivilege → Result AccessError (Unit {0})
check_database_privilege c i db p = do
  ensure
      (is_none_or i.ceiling (λ scope. permits scope db none p)
        && is_none_or i.external_access (λ access. permits access db none p))
      command_denied_for_database
  check_privilege c i db p

unfoldable pub check_table :
    Catalog → Identity → Text → Text → AuthPrivilege → Result AccessError (Unit {0})
check_table c i db t p = do
  check_privilege c i db p
  ensure (is_none_or i.ceiling (λ scope. permits scope db (some t) p)) command_denied_for_table
  ensure (is_none_or i.external_access (λ scope. permits scope db (some t) p))
      command_denied_for_table

all_privileges : Privileges
all_privileges =
    select ∷ insert_rows ∷ update ∷ delete ∷ create ∷ alter ∷ drop_objects ∷ index ∷ references ∷ []

unfoldable pub table_visible : Catalog → Identity → Text → Text → Bool
unfolding all_privileges
table_visible c i db t = any (λ p. is_ok (check_table c i db t p)) all_privileges
