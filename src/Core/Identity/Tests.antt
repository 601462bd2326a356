-- ===== src/Core/Identity/Tests.antt =====
-- The theorem on accounts at concrete inputs: a player whose account was made on the web now plays.
use mathlib.Core.Bool.{true, false}
use loontail_minecraft_netwo.Prelude.{
  ◌≡◌, refl, none, some, [], ◌∷◌, find, any, all, keep, update_where, arith, count_where, replicate,
}
use loontail_minecraft_netwo.Network.Effect.{bad_request}
use loontail_minecraft_netwo.Core.Account.{Account, Auth, err}
use loontail_minecraft_netwo.Core.Identity.{
  IdentityEnv, update_account, authenticate_password, assign_or_reconcile_profile_uuid,
  reconcile_profile_uuid,
}
use loontail_minecraft_netwo.Core.Identity.Registry.{link_minecraft_uuid}
use loontail_minecraft_netwo.Yggdrasil.Uuid
use loontail_minecraft_netwo.Core.Identity.Invariant.{IsReconciled}
use loontail_minecraft_netwo.Core.Identity.Reconciled.{Call, links, step, step-IsReconciled}

abbrev env : IdentityEnv
env = record {
  trim = λ t. t;
  to_lowercase = λ t. t;
  sql_lower = λ t. t;
  has_whitespace = λ t. false;
  hash_password = λ t. b'#' ∷ t;
  verify_password = λ p h. true;
  random_profile_uuid = replicate 32 b'0';
}

abbrev account : Account
account = record {
  id = 7;
  minecraft_uuid = none;
  username = b'S' ∷ [];
  normalized_username = b's' ∷ [];
  email = some (b'@' ∷ []);
  password_hash = none;
  profile_uuid = some (replicate 32 b'a');
  confirmed = true;
  blocked = false;
  is_admin = false;
}

abbrev auth : Auth
auth = record { accounts = account ∷ []; sessions = []; tokens = []; next_id = 8 }

auth-IsReconciled : IsReconciled env auth.accounts auth.next_id
unfolding count_where
auth-IsReconciled = record {
  used = (omega arith, tt);
  one_row = λ id. ground arith;
  one_minecraft = λ k. ground arith;
  one_profile = λ k. ground arith;
  one_username = λ k. ground arith;
  one_email = λ k. ground arith;
  agree = ((λ mc e. absurd (cc)), tt);
}

abbrev call : Call
call = links 7 (replicate 32 b'A')

-- The bootstrap takes any text, and the next login fails on it.
link_minecraft_uuid-unchecked :
    (authenticate_password env (b's' ∷ []) (b'p' ∷ []) (
      step env
        (links 7 (b'x' ∷ []))
        (record auth { accounts = record account { password_hash = some (b'#' ∷ []) } ∷ [] }))).0
    ≡ err (bad_request "invalid minecraftUuid")
unfolding step link_minecraft_uuid update_account authenticate_password
    assign_or_reconcile_profile_uuid reconcile_profile_uuid Uuid.undash_uuid find any keep
    update_where
link_minecraft_uuid-unchecked = refl

step-IsReconciled_example :
    IsReconciled env (step env call auth).accounts (step env call auth).next_id
unfolding find Uuid.undash_uuid all
step-IsReconciled_example = step-IsReconciled env call auth refl auth-IsReconciled
