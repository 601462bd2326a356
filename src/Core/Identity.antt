-- ===== src/Core/Identity.antt =====
-- crates/core/src/identity.rs: how accounts are created, reconciled, changed and signed in, and
-- `is_valid_email` of crates/core/src/models.rs. The messages of errors leave out the name they quote.
pub mod Registry
pub mod Table
pub mod Invariant
pub mod Kept
pub mod Reconciled
mod Tests
use mathlib.Core.Bool.{Bool, true, false, ◌&&◌, ◌||◌, not}
use loontail_minecraft_netwo.Prelude.{
  ℕ, suc, Option, none, some, List, [], ◌∷◌, leb, ltb, nat_beq, if◌then◌else◌, length, any, find,
  keep, update_where, ◌==◌,
}
use loontail_minecraft_netwo.Prelude.Text.{bytes_eq, bytes_beq}
use loontail_minecraft_netwo.Network.Effect.{
  AppError, bad_request, not_found, conflict, forbidden, database,
}
use loontail_minecraft_netwo.Core.Account.{Text, Account, Auth, Result, ok, err}
use loontail_minecraft_netwo.Core.Tokens.{has_account_id, is_eligible}
use loontail_minecraft_netwo.Core.Headers.{is_empty, split_once}
use loontail_minecraft_netwo.Yggdrasil.Uuid

-- What comes from outside: the standard library's `trim`, `to_lowercase` and `is_whitespace`, the
-- database's `lower`, Argon2, and a random UUID in 32 lowercase digits.
pub record IdentityEnv : Type 0 where
  pub trim : Text → Text
  pub to_lowercase : Text → Text
  pub sql_lower : Text → Text
  pub has_whitespace : Text → Bool
  pub hash_password : Text → Text
  pub verify_password : Text → Text → Bool
  pub random_profile_uuid : Text

abbrev pub normalize_username : IdentityEnv → Text → Text
normalize_username env username = env.to_lowercase (env.trim username)

-- `str::contains` and `str::starts_with` of one character.
abbrev pub has_byte : ℕ → Text → Bool
has_byte c [] = false
has_byte c (b ∷ bs) = nat_beq b c || has_byte c bs

abbrev pub starts_with : ℕ → Text → Bool
starts_with c [] = false
starts_with c (b ∷ bs) = nat_beq b c

abbrev pub has_tld : Option (Text × Text) → Bool
has_tld none = false
has_tld (some (host, tld)) =
    not (is_empty host) && (not (is_empty tld) && not (starts_with b'.' tld))

unfoldable pub is_valid_email : IdentityEnv → Text → Bool
unfolding split_once
is_valid_email env text =
    let email = env.trim text in
    if is_empty email || (ltb 254 (length email) || env.has_whitespace email)
    then false
    else elim (split_once b'@' email) [
      | none ↦ false
      | some (local, domain) ↦
          if is_empty local || (is_empty domain || has_byte b'@' domain)
          then false
          else has_tld (split_once b'.' domain)
    ]

abbrev pub password_fits : Text → Bool
password_fits password = not (is_empty password) && leb (length password) 1024

abbrev pub password_error : Text → AppError
password_error [] = bad_request "password is required"
password_error (b ∷ bs) = bad_request "password is too long"

-- The unique indexes of `users`, in the order in which they were created.
pub data Violation : Type 0 where
  on_minecraft_uuid on_profile_uuid on_username on_email : Violation

abbrev pub both_same : Option Text → Option Text → Bool
both_same none other = false
both_same (some a) none = false
both_same (some a) (some b) = a == b

abbrev pub minecraft_key : IdentityEnv → Account → Option Text
minecraft_key env a = a.minecraft_uuid

abbrev pub profile_key : IdentityEnv → Account → Option Text
profile_key env a = a.profile_uuid

abbrev pub username_key : IdentityEnv → Account → Option Text
username_key env a = some a.normalized_username

abbrev pub lowered : IdentityEnv → Option Text → Option Text
lowered env none = none
lowered env (some email) = some (env.sql_lower email)

abbrev pub email_key : IdentityEnv → Account → Option Text
email_key env a = lowered env a.email

abbrev pub clashes : (Account → Option Text) → Account → List Account → Bool
clashes key row others = any (λ b. both_same (key row) (key b)) others

unfoldable pub violation : IdentityEnv → Account → List Account → Option Violation
violation env row others =
    if clashes (minecraft_key env) row others
    then some on_minecraft_uuid
    else (if clashes (profile_key env) row others
        then some on_profile_uuid
        else (if clashes (username_key env) row others
            then some on_username
            else (if clashes (email_key env) row others then some on_email else none)))

abbrev pub map_username_conflict : Violation → AppError
map_username_conflict on_username = conflict "username is already taken"
map_username_conflict _ = database

abbrev pub map_create_conflict : Violation → AppError
map_create_conflict on_username = conflict "username is already taken"
map_create_conflict on_email = conflict "email is already registered"
map_create_conflict _ = database

abbrev pub plain_database : Violation → AppError
plain_database v = database

unfoldable pub insert_account :
    IdentityEnv → (Violation → AppError) → Account → Auth → Result Account × Auth
unfolding violation
insert_account env on_violation row s = elim (violation env row s.accounts) [
  | some v ↦ (err (on_violation v), s)
  | none ↦ (ok row, record s { accounts = row ∷ s.accounts; next_id = suc s.next_id })
]

-- `UPDATE users SET … WHERE id = $1 RETURNING *`
unfoldable pub update_account :
    IdentityEnv
    → (Violation → AppError)
    → AppError
    → ℕ
    → (Account → Account)
    → Auth
    → Result Account × Auth
unfolding violation
update_account env on_violation absent id change s = elim (find (has_account_id id) s.accounts) [
  | none ↦ (err absent, s)
  | some a ↦ elim (violation env (change a) (keep (λ b. not (has_account_id id b)) s.accounts)) [
    | some v ↦ (err (on_violation v), s)
    | none ↦
        (ok (change a), record s { accounts = update_where (has_account_id id) change s.accounts })
  ]
]

-- `reconcile_profile_uuid`: a Minecraft identity determines the profile.
unfoldable pub reconcile_profile_uuid : IdentityEnv → Option Text → Option Text → Result Text
unfolding Uuid.undash_uuid
reconcile_profile_uuid env (some mc) current = elim (Uuid.undash_uuid mc) [
  | Uuid.ok uuid ↦ ok uuid
  | Uuid.invalid value ↦ err (bad_request "invalid minecraftUuid")
]
reconcile_profile_uuid env none (some current) = ok current
reconcile_profile_uuid env none none = ok env.random_profile_uuid

abbrev pub with_profile : Text → Account → Account
with_profile uuid a = record a { profile_uuid = some uuid }

unfoldable pub assign_or_reconcile_profile_uuid :
    IdentityEnv → Account → Auth → Result Account × Auth
unfolding reconcile_profile_uuid update_account
assign_or_reconcile_profile_uuid env user s =
    elim (reconcile_profile_uuid env user.minecraft_uuid user.profile_uuid) [
      | err e ↦ (err e, s)
      | ok desired ↦
          if both_same user.profile_uuid (some desired)
          then (ok user, s)
          else update_account env plain_database database user.id (with_profile desired) s
    ]

-- The row that a login looks up; its LIMIT 1 has no order, and takes the first one of the table here.
abbrev pub answers_to : IdentityEnv → Text → Account → Bool
answers_to env normalized a =
    a.normalized_username == normalized || both_same (lowered env a.email) (some normalized)

abbrev pub password_holds : IdentityEnv → Text → Option Text → Bool
password_holds env password none = false
password_holds env password (some hash) = env.verify_password password hash

unfoldable pub authenticate_password : IdentityEnv → Text → Text → Auth → Result Account × Auth
unfolding assign_or_reconcile_profile_uuid
authenticate_password env text password s =
    let identifier = env.trim text in
    if is_empty identifier || is_empty password
    then (err forbidden, s)
    else elim (find (answers_to env (normalize_username env identifier)) s.accounts) [
      | none ↦ (err forbidden, s)
      | some user ↦
          if password_holds env password user.password_hash && is_eligible user
          then assign_or_reconcile_profile_uuid env user s
          else (err forbidden, s)
    ]

abbrev pub coalesce : Option Text → Option Text → Option Text
coalesce none old = old
coalesce (some new) old = some new

abbrev pub refreshed : IdentityEnv → Text → Option Text → Option Text → Account → Account
refreshed env username mc profile a = record a {
  minecraft_uuid = coalesce mc a.minecraft_uuid;
  profile_uuid = coalesce profile a.profile_uuid;
  username = env.trim username;
  normalized_username = normalize_username env (env.trim username);
}

abbrev pub new_account :
    IdentityEnv → ℕ → Option Text → Text → Option Text → Option Text → Text → Bool → Bool → Account
new_account env id mc username email hash profile confirmed admin = record {
  id = id;
  minecraft_uuid = mc;
  username = username;
  normalized_username = normalize_username env username;
  email = email;
  password_hash = hash;
  profile_uuid = some profile;
  confirmed = confirmed;
  blocked = false;
  is_admin = admin;
}

abbrev pub has_minecraft_uuid : Text → Account → Bool
has_minecraft_uuid mc a = both_same a.minecraft_uuid (some mc)

abbrev pub has_profile_uuid : Text → Account → Bool
has_profile_uuid profile a = both_same a.profile_uuid (some profile)

-- The three branches of `find_or_create_from_bootstrap`.
unfoldable pub bind_or_create : IdentityEnv → Text → Text → Text → Auth → Result Account × Auth
unfolding update_account insert_account
bind_or_create env mc username profile s = elim (find (has_minecraft_uuid mc) s.accounts) [
  | some existing ↦
      update_account env map_username_conflict database existing.id
        (refreshed env username none (some profile)) s
  | none ↦ elim (find (has_profile_uuid profile) s.accounts) [
    | some existing ↦
        update_account env map_username_conflict database existing.id
          (refreshed env username (some mc) none) s
    | none ↦
        insert_account env map_username_conflict
          (new_account env s.next_id (some mc) (env.trim username) none none profile false false) s
  ]
]

unfoldable pub find_or_create_from_bootstrap :
    IdentityEnv → Text → Text → Auth → Result Account × Auth
unfolding bind_or_create Uuid.undash_uuid
find_or_create_from_bootstrap env minecraft_uuid username s =
    let mc = env.trim minecraft_uuid in
    if is_empty mc
    then (err (bad_request "minecraftUuid is required"), s)
    else (if is_empty (env.trim username)
        then (err (bad_request "username is required"), s)
        else elim (Uuid.undash_uuid mc) [
          | Uuid.invalid value ↦ (err (bad_request "invalid minecraftUuid"), s)
          | Uuid.ok profile ↦ bind_or_create env mc username profile s
        ])
