-- ===== src/Core/Tokens/Capacity.antt =====
-- One user cannot grow the table of token pairs without bound.
use mathlib.Core.Bool.{Bool, false, ◌||◌, not}
use loontail_minecraft_netwo.Prelude.{
  ℕ, suc, ◌≤◌, ◌<◌, ◌≡◌, refl, Option, some, List, [], ◌∷◌, nat_beq, length, take, length-take-le,
  any, keep, count_where, count_where-keep-le, count_where-or-le, All, All-map, All-keep, arith,
  Bool-cases, inl, inr,
}
use loontail_minecraft_netwo.Prelude.Int.{pos}
use loontail_minecraft_netwo.Core.Account.{Text, TokenPair, Auth, AuthEnv, Result-cases}
use loontail_minecraft_netwo.Core.Tokens.{
  is_pair_of, sort_latest, has_token_id, has_hash, evict, new_pair, client_or_fresh,
  issue_yggdrasil_tokens, eligible_owner, without, refresh_yggdrasil, invalidate_yggdrasil,
  invalidate_all_yggdrasil_for_user, cleanup_expired_yggdrasil,
}

abbrev pub has_pair_id : ℕ → TokenPair → Bool
has_pair_id id t = nat_beq id t.id

-- An id names one row and is used up, and no user has more pairs than the cap.
pub record IsCapped (cap : ℕ) (tokens : List TokenPair) (next : ℕ) : Type 0 where
  pub used : All (λ t. t.id < next) tokens
  pub unique : (id : ℕ) → count_where (has_pair_id id) tokens ≤ 1
  pub within : (user : ℕ) → count_where (is_pair_of user) tokens ≤ cap

pub data Call : Type 0 where
  issues : (user : ℕ) (client : Option Text) → Call
  refreshes : (access : Text) (client : Option Text) → Call
  invalidates : (access : Text) (client : Option Text) → Call
  invalidates_all : (user : ℕ) → Call
  cleans : Call

unfoldable pub step : AuthEnv → Call → Auth → Auth
step env (issues user client) s = (issue_yggdrasil_tokens env user client s).1
step env (refreshes access client) s = (refresh_yggdrasil env access client s).1
step env (invalidates access client) s = (invalidate_yggdrasil env access client s).1
step env (invalidates_all user) s = (invalidate_all_yggdrasil_for_user user s).1
step env cleans s = (cleanup_expired_yggdrasil env s).1

keep-IsCapped :
    (cap next : ℕ) (q : TokenPair → Bool) (ts : List TokenPair)
    → IsCapped cap ts next
    → IsCapped cap (keep q ts) next
keep-IsCapped cap next q ts v = record {
  used = All-keep (λ t. t.id < next) q ts v.used;
  unique = λ id. omega (arith, count_where-keep-le (has_pair_id id) q ts, v.unique id);
  within = λ user. omega (arith, count_where-keep-le (is_pair_of user) q ts, v.within user);
}

count_where-none : (ts : List TokenPair) → count_where (λ t. false) ts ≡ 0
unfolding count_where
count_where-none [] = refl
count_where-none (t ∷ ts) = count_where-none ts

-- As many rows are listed as ids are, since an id names one row.
count_where-listed :
    (latest ts : List TokenPair)
    → ((id : ℕ) → count_where (has_pair_id id) ts ≤ 1)
    → count_where (λ t. any (has_token_id t) latest) ts ≤ length latest
unfolding any
count_where-listed [] ts u = omega (arith, count_where-none ts)
count_where-listed (k ∷ ks) ts u =
    let both = count_where-or-le (has_pair_id k.id) (λ t. any (has_token_id t) ks) ts in
    omega (arith, both, u k.id, count_where-listed ks ts u)

count_where-evicted :
    (user : ℕ) (r : TokenPair → Bool) (ts : List TokenPair)
    → count_where (is_pair_of user) (keep (λ t. not (is_pair_of user t) || r t) ts)
      ≤ count_where r ts
unfolding keep count_where
count_where-evicted user r [] = omega arith
count_where-evicted user r (t ∷ ts) = ground (arith, count_where-evicted user r ts)

fresh_id_unused :
    (next : ℕ) (ts : List TokenPair)
    → All (λ t. t.id < next) ts
    → count_where (has_pair_id next) ts ≡ 0
unfolding count_where
fresh_id_unused next [] a = refl
fresh_id_unused next (t ∷ ts) a = ground (arith, a.0, fresh_id_unused next ts a.1)

evict-IsCapped :
    (n next user : ℕ) (pair : TokenPair) (ts : List TokenPair)
    → pair.id ≡ next
    → pair.user_id ≡ user
    → IsCapped (suc n) ts next
    → IsCapped (suc n) (evict (pos (suc n)) user (pair ∷ ts)) (suc next)
unfolding evict count_where
evict-IsCapped n next user pair ts e o v =
    let latest = take (suc n) (sort_latest (keep (is_pair_of user) (pair ∷ ts))) in
    let r : TokenPair → Bool = λ t. any (has_token_id t) latest in
    let q : TokenPair → Bool = λ t. not (is_pair_of user t) || r t in
    let all_used : All (λ t. t.id < suc next) (pair ∷ ts) =
      (omega (arith, e), All-map _ _ ts (λ t a. omega (arith, a)) v.used) in
    let all_unique : (id : ℕ) → count_where (has_pair_id id) (pair ∷ ts) ≤ 1 =
      λ id. ground (arith, e, v.unique id, fresh_id_unused next ts v.used) in
    record {
      used = All-keep (λ t. t.id < suc next) q (pair ∷ ts) all_used;
      unique =
          λ id. omega (arith, count_where-keep-le (has_pair_id id) q (pair ∷ ts), all_unique id);
      within = λ other. elim (Bool-cases (nat_beq user other)) [
        | inl y ↦
            (let same : user ≡ other = ground (arith, y) in
              rw (← same) (
                omega (
                  arith,
                  count_where-evicted user r (pair ∷ ts),
                  count_where-listed latest (pair ∷ ts) all_unique,
                  length-take-le (suc n) (sort_latest (keep (is_pair_of user) (pair ∷ ts))),
                )))
        | inr m ↦
            (let alone : count_where (is_pair_of other) (pair ∷ ts)
                  ≡ count_where (is_pair_of other) ts =
                ground (arith, m, o) in
              omega (
                arith,
                alone,
                count_where-keep-le (is_pair_of other) q (pair ∷ ts),
                v.within other,
              ))
      ];
    }

issue-IsCapped :
    (n : ℕ) (env : AuthEnv) (user : ℕ) (client : Option Text) (s : Auth)
    → env.max_per_user ≡ pos (suc n)
    → IsCapped (suc n) s.tokens s.next_id
    → let t = (issue_yggdrasil_tokens env user client s).1 in IsCapped (suc n) t.tokens t.next_id
unfolding issue_yggdrasil_tokens
issue-IsCapped n env user client s e v =
    let pair = new_pair env s.next_id user (client_or_fresh env client) in
    elim (Bool-cases (any (has_hash pair.access_token_hash) s.tokens)) [
      | inl y ↦ rw y v
      | inr m ↦ rw (m, e) (evict-IsCapped n s.next_id user pair s.tokens refl refl v)
    ]

refresh-IsCapped :
    (n : ℕ) (env : AuthEnv) (access : Text) (client : Option Text) (s : Auth)
    → env.max_per_user ≡ pos (suc n)
    → IsCapped (suc n) s.tokens s.next_id
    → let t = (refresh_yggdrasil env access client s).1 in IsCapped (suc n) t.tokens t.next_id
unfolding refresh_yggdrasil
refresh-IsCapped n env access client s e v =
    elim (Result-cases (eligible_owner env access client s)) [
      | inr (r, h) ↦ rw (h, refresh_yggdrasil) v
      | inl ((account, pair), h) ↦
          (let left = without (env.hash_token access) s in
            let kept : IsCapped (suc n) left.tokens left.next_id =
              keep-IsCapped (suc n) s.next_id (λ t. not (has_hash (env.hash_token access) t))
                s.tokens v in
            let issued = issue-IsCapped n env pair.user_id (some pair.client_token) left e kept in
            elim (Result-cases
              (issue_yggdrasil_tokens env pair.user_id (some pair.client_token) left).0) [
                | inl (tokens, k) ↦ rw (h, k, refresh_yggdrasil) issued
                | inr (r, k) ↦ rw (h, k, refresh_yggdrasil) issued
              ])
    ]

-- With a positive cap, every call on token pairs keeps each user within the cap, whatever it
-- answers, where ids name one row and are used up.
pub step-IsCapped :
    (n : ℕ) (env : AuthEnv) (c : Call) (s : Auth)
    → env.max_per_user ≡ pos (suc n)
    → IsCapped (suc n) s.tokens s.next_id
    → IsCapped (suc n) (step env c s).tokens (step env c s).next_id
unfolding step invalidate_yggdrasil invalidate_all_yggdrasil_for_user cleanup_expired_yggdrasil
step-IsCapped n env (issues user client) s e v = issue-IsCapped n env user client s e v
step-IsCapped n env (refreshes access client) s e v = refresh-IsCapped n env access client s e v
step-IsCapped n env (invalidates access client) s e v = keep-IsCapped (suc n) s.next_id _ s.tokens v
step-IsCapped n env (invalidates_all user) s e v = keep-IsCapped (suc n) s.next_id _ s.tokens v
step-IsCapped n env cleans s e v = keep-IsCapped (suc n) s.next_id _ s.tokens v
