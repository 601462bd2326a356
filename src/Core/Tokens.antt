-- ===== src/Core/Tokens.antt =====
-- crates/core/src/auth/yggdrasil.rs: the access and client tokens of the game handshake.
pub mod Capacity
pub mod Rotation
use mathlib.Core.Bool.{Bool, true, false, ◌&&◌, ◌||◌, not}
use loontail_minecraft_netwo.Prelude.{
  ℕ, zero, suc, ◌+◌, Option, none, some, List, [], ◌∷◌, map, leb, ltb, nat_beq, if◌then◌else◌, take,
  any, find, keep, count_where, ◌==◌,
}
use loontail_minecraft_netwo.Prelude.Int.{ℤ, pos, negsuc}
use loontail_minecraft_netwo.Prelude.Text.{bytes_eq}
use loontail_minecraft_netwo.Network.Effect.{AppError, forbidden, database}
use loontail_minecraft_netwo.Core.Account.{Text, Account, TokenPair, Auth, AuthEnv, Result, ok, err}

pub record YggdrasilTokens : Type 0 where
  pub access_token : Text
  pub client_token : Text
  pub expires_at : ℕ

abbrev pub has_hash : Text → TokenPair → Bool
has_hash hash t = t.access_token_hash == hash

abbrev pub is_pair_of : ℕ → TokenPair → Bool
is_pair_of user t = nat_beq t.user_id user

-- `ORDER BY issued_at DESC`. The database may give rows of one time in any order; here they stay in
-- the order of the table, the newest row first.
unfoldable pub insert_latest : TokenPair → List TokenPair → List TokenPair
insert_latest t [] = t ∷ []
insert_latest t (u ∷ us) =
    if leb u.issued_at t.issued_at then t ∷ u ∷ us else u ∷ insert_latest t us

unfoldable pub sort_latest : List TokenPair → List TokenPair
sort_latest [] = []
sort_latest (t ∷ ts) = insert_latest t (sort_latest ts)

abbrev pub has_token_id : TokenPair → TokenPair → Bool
has_token_id t kept = nat_beq kept.id t.id

-- The eviction beyond the cap, which a cap that is not positive switches off.
unfoldable pub evict : ℤ → ℕ → List TokenPair → List TokenPair
unfolding sort_latest
evict (negsuc n) user ts = ts
evict (pos zero) user ts = ts
evict (pos (suc n)) user ts =
    let latest = take (suc n) (sort_latest (keep (is_pair_of user) ts)) in
    keep (λ t. not (is_pair_of user t) || any (has_token_id t) latest) ts

abbrev pub new_pair : AuthEnv → ℕ → ℕ → Text → TokenPair
new_pair env id user client = record {
  id = id;
  user_id = user;
  access_token_hash = env.hash_token env.fresh_token;
  client_token = client;
  issued_at = env.now;
  expires_at = env.now + env.ttl;
}

abbrev pub client_or_fresh : AuthEnv → Option Text → Text
client_or_fresh env none = env.fresh_client_token
client_or_fresh env (some client) = client

-- The insertion fails on a digest that the table has already.
unfoldable pub issue_yggdrasil_tokens :
    AuthEnv → ℕ → Option Text → Auth → Result YggdrasilTokens × Auth
unfolding evict
issue_yggdrasil_tokens env user client s =
    let pair = new_pair env s.next_id user (client_or_fresh env client) in
    if any (has_hash pair.access_token_hash) s.tokens then (err database, s) else (
      ok (record {
        access_token = env.fresh_token;
        client_token = pair.client_token;
        expires_at = pair.expires_at;
      }),
      record s { tokens = evict env.max_per_user user (pair ∷ s.tokens); next_id = suc s.next_id },
    )

abbrev pub client_matches : Option Text → TokenPair → Bool
client_matches none t = true
client_matches (some supplied) t = supplied == t.client_token

abbrev pub is_live_pair : ℕ → Text → TokenPair → Bool
is_live_pair now hash t = has_hash hash t && ltb now t.expires_at

abbrev pub has_account_id : ℕ → Account → Bool
has_account_id id a = nat_beq a.id id

abbrev pub is_eligible : Account → Bool
is_eligible a = not a.blocked && a.confirmed

-- The checks that `validate_yggdrasil` and `refresh_yggdrasil` share.
unfoldable pub eligible_owner : AuthEnv → Text → Option Text → Auth → Result (Account × TokenPair)
eligible_owner env access client s =
    elim (find (is_live_pair env.now (env.hash_token access)) s.tokens) [
      | none ↦ err forbidden
      | some pair ↦
          if client_matches client pair
          then elim (find (has_account_id pair.user_id) s.accounts) [
            | none ↦ err forbidden
            | some account ↦ if is_eligible account then ok (account, pair) else err forbidden
          ]
          else err forbidden
    ]

unfoldable pub validate_yggdrasil : AuthEnv → Text → Option Text → Auth → Result Account
unfolding eligible_owner
validate_yggdrasil env access client s = elim (eligible_owner env access client s) [
  | err e ↦ err e
  | ok (account, pair) ↦ ok account
]

abbrev pub without : Text → Auth → Auth
without hash s = record s { tokens = keep (λ t. not (has_hash hash t)) s.tokens }

-- The removal and the insertion are not one transaction.
unfoldable pub refresh_yggdrasil :
    AuthEnv → Text → Option Text → Auth → Result (Account × YggdrasilTokens) × Auth
unfolding eligible_owner issue_yggdrasil_tokens
refresh_yggdrasil env access client s = elim (eligible_owner env access client s) [
  | err e ↦ (err e, s)
  | ok (account, pair) ↦
      (let issued =
          issue_yggdrasil_tokens env pair.user_id (some pair.client_token)
            (without (env.hash_token access) s) in
        elim issued.0 [ err e ↦ (err e, issued.1) | ok tokens ↦ (ok (account, tokens), issued.1) ])
]

abbrev pub is_invalidated : AuthEnv → Text → Option Text → TokenPair → Bool
is_invalidated env access none t = has_hash (env.hash_token access) t
is_invalidated env access (some client) t =
    has_hash (env.hash_token access) t && (t.client_token == client)

-- Each deletion answers the number of rows that it removed.
abbrev pub delete_tokens : (TokenPair → Bool) → Auth → ℕ × Auth
delete_tokens gone s =
    (count_where gone s.tokens, record s { tokens = keep (λ t. not (gone t)) s.tokens })

unfoldable pub invalidate_yggdrasil : AuthEnv → Text → Option Text → Auth → ℕ × Auth
invalidate_yggdrasil env access client s = delete_tokens (is_invalidated env access client) s

unfoldable pub invalidate_all_yggdrasil_for_user : ℕ → Auth → ℕ × Auth
invalidate_all_yggdrasil_for_user user s = delete_tokens (is_pair_of user) s

unfoldable pub cleanup_expired_yggdrasil : AuthEnv → Auth → ℕ × Auth
cleanup_expired_yggdrasil env s = delete_tokens (λ t. leb t.expires_at env.now) s
