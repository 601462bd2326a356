-- ===== src/Core/Account.antt =====
-- The rows that authentication reads and writes: `users` (crates/core/src/models.rs), `sessions`
-- (migrations/0010_unify_sessions.sql) and `yggdrasil_tokens` (migrations/0004 and 0019). A text is
-- its bytes, a UUID and a time are numbers, and a table lists its newest row first.
use mathlib.Core.Bool.{Bool}
use loontail_minecraft_netwo.Prelude.{ℕ, ◌≡◌, ◌⊎◌, inl, inr, refl, Option, List}
use loontail_minecraft_netwo.Prelude.Int.{ℤ}
use loontail_minecraft_netwo.Network.Effect.{AppError}

abbrev pub Text : Type 0
Text = List ℕ

-- The columns of `User` that accounts and authentication are about.
pub record Account : Type 0 where
  pub id : ℕ
  pub minecraft_uuid : Option Text
  pub username : Text
  pub normalized_username : Text
  pub email : Option Text
  pub password_hash : Option Text
  pub profile_uuid : Option Text
  pub confirmed : Bool
  pub blocked : Bool
  pub is_admin : Bool

pub record Session : Type 0 where
  pub user_id : ℕ
  pub token_hash : Text
  pub expires_at : ℕ
  pub revoked_at : Option ℕ

pub record TokenPair : Type 0 where
  pub id : ℕ
  pub user_id : ℕ
  pub access_token_hash : Text
  pub client_token : Text
  pub issued_at : ℕ
  pub expires_at : ℕ

pub record Auth : Type 0 where
  pub accounts : List Account
  pub sessions : List Session
  pub tokens : List TokenPair
  pub next_id : ℕ

-- What a call takes from outside the database: a reading of the clock, the lifetime of what it
-- issues, the cap on the pairs of a user, two fresh random texts, and SHA-256 in hexadecimal.
pub record AuthEnv : Type 0 where
  pub now : ℕ
  pub ttl : ℕ
  pub max_per_user : ℤ
  pub fresh_token : Text
  pub fresh_client_token : Text
  pub hash_token : Text → Text

pub data Result (A : Type 0) : Type 0 where
  ok : A → Result A
  err : AppError → Result A

pub Result-cases :
    {A : Type 0} (r : Result A) → ((a : A) × (r ≡ ok a)) ⊎ ((e : AppError) × (r ≡ err e))
Result-cases (ok a) = inl (a, refl)
Result-cases (err e) = inr (e, refl)
