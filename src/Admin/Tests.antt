-- ===== src/Admin/Tests.antt =====
-- The theorem on administrators at a concrete input.
use mathlib.Core.Bool.{true, false}
use loontail_minecraft_netwo.Prelude.{ℕ, ◌≤◌, none, [], ◌∷◌, arith, count_where}
use loontail_minecraft_netwo.Prelude.Int.{pos}
use loontail_minecraft_netwo.Core.Account.{Account, Auth, AuthEnv}
use loontail_minecraft_netwo.Core.Identity.{IdentityEnv}
use loontail_minecraft_netwo.Admin.Users.Counting.{usable, OneRow}
use loontail_minecraft_netwo.Admin.Users.LastAdmin.{blocks, step, step-usable}

abbrev env : IdentityEnv
env = record {
  trim = λ t. t;
  to_lowercase = λ t. t;
  sql_lower = λ t. t;
  has_whitespace = λ t. false;
  hash_password = λ t. t;
  verify_password = λ p h. true;
  random_profile_uuid = [];
}

abbrev clock : AuthEnv
clock = record {
  now = 10;
  ttl = 5;
  max_per_user = pos 0;
  fresh_token = [];
  fresh_client_token = [];
  hash_token = λ t. t;
}

abbrev account : ℕ → Account
account id = record {
  id = id;
  minecraft_uuid = none;
  username = id ∷ [];
  normalized_username = id ∷ [];
  email = none;
  password_hash = none;
  profile_uuid = none;
  confirmed = true;
  blocked = false;
  is_admin = true;
}

abbrev auth : Auth
auth = record { accounts = account 8 ∷ account 7 ∷ []; sessions = []; tokens = []; next_id = 9 }

auth-OneRow : OneRow auth
unfolding count_where
auth-OneRow id = ground arith

step-usable_example : 1 ≤ usable (step clock env (blocks 8) auth).accounts
unfolding count_where
step-usable_example = step-usable clock env (blocks 8) auth auth-OneRow (omega arith)
