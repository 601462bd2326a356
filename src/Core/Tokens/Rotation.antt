-- ===== src/Core/Tokens/Rotation.antt =====
-- A refresh replaces a token pair: the old access token dies, the new one serves the same account.
use mathlib.Core.Bool.{Bool, true, false, ◌||◌, not}
use loontail_minecraft_netwo.Prelude.{
  ℕ, zero, suc, ◌+◌, ◌≤◌, ◌<◌, ◌≡◌, ◌≢◌, refl, ap, sym, ◌∙◌, Option, none, some, List, [], ◌∷◌, leb,
  ltb, nat_beq, take, any, any-keep-false, find, keep, All, All-keep, arith, Bool-cases,
  Option-cases, inl, inr, ==-refl, ==-ne,
}
use loontail_minecraft_netwo.Prelude.Int.{ℤ, pos, negsuc}
use loontail_minecraft_netwo.Prelude.Text.{bytes_eq}
use loontail_minecraft_netwo.Network.Effect.{forbidden}
use loontail_minecraft_netwo.Core.Account.{
  Text, Account, TokenPair, Auth, AuthEnv, ok, err, Result-cases,
}
use loontail_minecraft_netwo.Core.Tokens.{
  YggdrasilTokens, is_pair_of, insert_latest, sort_latest, has_token_id, has_hash, evict, new_pair,
  client_or_fresh, issue_yggdrasil_tokens, client_matches, is_live_pair, has_account_id,
  is_eligible, eligible_owner, validate_yggdrasil, without, refresh_yggdrasil,
}

insert-Issued :
    (now : ℕ) (t : TokenPair) (ts : List TokenPair)
    → t.issued_at ≤ now
    → All (λ u. u.issued_at ≤ now) ts
    → All (λ u. u.issued_at ≤ now) (insert_latest t ts)
unfolding insert_latest
insert-Issued now t [] b a = (b, tt)
insert-Issued now t (u ∷ us) b a = elim (Bool-cases (leb u.issued_at t.issued_at)) [
  | inl y ↦ rw y (b, a)
  | inr n ↦ rw n (a.0, insert-Issued now t us b a.1)
]

sort-Issued :
    (now : ℕ) (ts : List TokenPair)
    → All (λ u. u.issued_at ≤ now) ts
    → All (λ u. u.issued_at ≤ now) (sort_latest ts)
unfolding sort_latest
sort-Issued now [] a = tt
sort-Issued now (t ∷ ts) a = insert-Issued now t (sort_latest ts) a.0 (sort-Issued now ts a.1)

-- The row of now comes first.
insert-newest :
    (t : TokenPair) (ts : List TokenPair)
    → All (λ u. u.issued_at ≤ t.issued_at) ts
    → insert_latest t ts ≡ t ∷ ts
unfolding insert_latest
insert-newest t [] a = refl
insert-newest t (u ∷ us) a =
    (let y : leb u.issued_at t.issued_at ≡ true = ground (arith, a.0) in rw y refl)

-- The eviction never touches the row that has just been inserted.
evict-newest :
    (max : ℤ) (user : ℕ) (t : TokenPair) (ts : List TokenPair)
    → t.user_id ≡ user
    → All (λ u. u.issued_at ≤ t.issued_at) ts
    → (us : List TokenPair) × (evict max user (t ∷ ts) ≡ t ∷ us)
      × ((p : TokenPair → Bool) → any p ts ≡ false → any p us ≡ false)
unfolding evict keep sort_latest any
evict-newest (negsuc n) user t ts e a = (ts, refl, λ p h. h)
evict-newest (pos zero) user t ts e a = (ts, refl, λ p h. h)
evict-newest (pos (suc n)) user t ts e a =
    let mine : is_pair_of user t ≡ true = ground (arith, e) in
    let rest = keep (is_pair_of user) ts in
    let first =
      insert-newest t (sort_latest rest) (sort-Issued t.issued_at rest (All-keep _ _ ts a)) in
    let same : nat_beq t.id t.id ≡ true = ground arith in
    let latest = take (suc n) (sort_latest (keep (is_pair_of user) (t ∷ ts))) in
    let q : TokenPair → Bool = λ u. not (is_pair_of user u) || any (has_token_id u) latest in
    let stays : q t ≡ true = rw (mine, first, same) refl in
    (keep q ts, rw stays refl, λ p h. any-keep-false p q ts h)

-- What a validation looks at.
abbrev Owns : AuthEnv → Text → Option Text → Auth → Account → TokenPair → Type 0
Owns env access client s account pair =
    (find (is_live_pair env.now (env.hash_token access)) s.tokens ≡ some pair)
    × ((client_matches client pair ≡ true)
        × ((find (has_account_id pair.user_id) s.accounts ≡ some account)
            × (is_eligible account ≡ true)))

eligible_owner-Owns :
    (env : AuthEnv) (access : Text) (client : Option Text) (s : Auth) (account : Account)
    (pair : TokenPair)
    → eligible_owner env access client s ≡ ok (account, pair)
    → Owns env access client s account pair
unfolding eligible_owner
eligible_owner-Owns env access client s account pair h =
    elim (Option-cases (find (is_live_pair env.now (env.hash_token access)) s.tokens)) [
      | inl e ↦ absurd (let k = rw (e, eligible_owner) at h in cc)
      | inr (p, e) ↦ elim (Bool-cases (client_matches client p)) [
        | inr n ↦ absurd (let k = rw (e, n, eligible_owner) at h in cc)
        | inl y ↦ elim (Option-cases (find (has_account_id p.user_id) s.accounts)) [
          | inl f ↦ absurd (let k = rw (e, y, f, eligible_owner) at h in cc)
          | inr (a, f) ↦ elim (Bool-cases (is_eligible a)) [
            | inr n ↦ absurd (let k = rw (e, y, f, n, eligible_owner) at h in cc)
            | inl z ↦
                (let k = rw (e, y, f, z, eligible_owner) at h in
                  let row : p ≡ pair = cc in
                  let owner : a ≡ account = cc in rw (← row, ← owner) (e, (y, (f, z))))
          ]
        ]
      ]
    ]

pub record Rotates (env : AuthEnv) (access : Text) (client : Option Text) (s t : Auth)
    (account : Account) (new : YggdrasilTokens) : Type 0 where
  pub pair : TokenPair
  pub owns : Owns env access client s account pair
  pub keeps_client : new.client_token ≡ pair.client_token
  pub old_dies :
      (later : ℕ) (other : Option Text)
      → validate_yggdrasil (record env { now = later }) access other t ≡ err forbidden
  pub new_serves :
      (later : ℕ)
      → later < new.expires_at
      → validate_yggdrasil (record env { now = later }) new.access_token (some new.client_token) t
        ≡ ok account

any-live :
    (now : ℕ) (hash : Text) (ts : List TokenPair)
    → any (has_hash hash) ts ≡ false
    → find (is_live_pair now hash) ts ≡ none
unfolding any find
any-live now hash [] h = refl
any-live now hash (t ∷ ts) h = ground (arith, any-live now hash ts)

any-without :
    (hash : Text) (ts : List TokenPair)
    → any (has_hash hash) (keep (λ t. not (has_hash hash t)) ts) ≡ false
unfolding any keep
any-without hash [] = refl
any-without hash (t ∷ ts) = ground (arith, any-without hash ts)

issued_parts :
    (env : AuthEnv) (user : ℕ) (client : Option Text) (s t : Auth) (new : YggdrasilTokens)
    → (issue_yggdrasil_tokens env user client s).0 ≡ ok new
    → (issue_yggdrasil_tokens env user client s).1 ≡ t
    → All (λ u. u.issued_at ≤ env.now) s.tokens
    → (us : List TokenPair) × (t ≡ record s {
      tokens = new_pair env s.next_id user (client_or_fresh env client) ∷ us;
      next_id = suc s.next_id;
    })
      × (new ≡ record {
        access_token = env.fresh_token;
        client_token = client_or_fresh env client;
        expires_at = env.now + env.ttl;
      })
      × ((p : TokenPair → Bool) → any p s.tokens ≡ false → any p us ≡ false)
unfolding issue_yggdrasil_tokens
issued_parts env user client s t new h k a =
    let pair = new_pair env s.next_id user (client_or_fresh env client) in
    elim (Bool-cases (any (has_hash pair.access_token_hash) s.tokens)) [
      | inl y ↦ absurd (let j = rw (y, issue_yggdrasil_tokens) at h in cc)
      | inr n ↦
          let j = rw (n, issue_yggdrasil_tokens) at h in
          let i = rw (n, issue_yggdrasil_tokens) at k in
          let (us, e, f) = evict-newest env.max_per_user user pair s.tokens refl a in
          (us, sym i ∙ ap (λ z. record s { tokens = z; next_id = suc s.next_id }) e, cc, f)
    ]

refresh_parts :
    (env : AuthEnv) (access : Text) (client : Option Text) (s t : Auth) (account : Account)
    (new : YggdrasilTokens)
    → refresh_yggdrasil env access client s ≡ (ok (account, new), t)
    → (pair : TokenPair) × (eligible_owner env access client s ≡ ok (account, pair))
      × (let left = without (env.hash_token access) s in
          let issued = issue_yggdrasil_tokens env pair.user_id (some pair.client_token) left in
          (issued.0 ≡ ok new) × (issued.1 ≡ t))
unfolding refresh_yggdrasil
refresh_parts env access client s t account new h =
    elim (Result-cases (eligible_owner env access client s)) [
      | inr (r, e) ↦ absurd (let k = rw (e, refresh_yggdrasil) at h in cc)
      | inl ((a, p), e) ↦
          (let left = without (env.hash_token access) s in
            elim (Result-cases
              (issue_yggdrasil_tokens env p.user_id (some p.client_token) left).0) [
                | inr (r, f) ↦ absurd (let k = rw (e, f, refresh_yggdrasil) at h in cc)
                | inl (tokens, f) ↦
                    (let k = rw (e, f, refresh_yggdrasil) at h in
                      let owner : a ≡ account = cc in
                      let same : tokens ≡ new = cc in
                      (
                        p,
                        e ∙ ap (λ z. ok (z, p)) owner,
                        (f ∙ ap (λ z. ok z) same, ap (λ z. z.1) k),
                      ))
              ])
    ]

-- A refresh that succeeds, with a random token that has another digest than the presented one, and
-- with no row issued in the future: from then on the presented access token is refused, and the
-- new one serves the same account, with the client token of the old pair, until it expires.
pub refresh-Rotates :
    (env : AuthEnv) (access : Text) (client : Option Text) (s t : Auth) (account : Account)
    (new : YggdrasilTokens)
    → env.hash_token env.fresh_token ≢ env.hash_token access
    → All (λ u. u.issued_at ≤ env.now) s.tokens
    → refresh_yggdrasil env access client s ≡ (ok (account, new), t)
    → Rotates env access client s t account new
unfolding validate_yggdrasil eligible_owner find
refresh-Rotates env access client s t account new d a h =
    let (pair, e, (f, g)) = refresh_parts env access client s t account new h in
    let owns = eligible_owner-Owns env access client s account pair e in
    let hash = env.hash_token access in
    let left = All-keep _ (λ u. not (has_hash hash u)) s.tokens a in
    let (us, written, answer, kept) =
      issued_parts env pair.user_id (some pair.client_token) (without hash s) t new f g left in
    let gone = kept (has_hash hash) (any-without hash s.tokens) in
    let differs = ==-ne (env.hash_token env.fresh_token) hash d in
    let same = ==-refl (env.hash_token env.fresh_token) in
    let client_same = ==-refl pair.client_token in
    let (row, (c, (owner, eligible))) = owns in
    record {
      pair = pair;
      owns = owns;
      keeps_client = rw answer refl;
      old_dies = λ later other. rw (written, differs, any-live later hash us gone) refl;
      new_serves = λ later l.
          (let live : ltb later (env.now + env.ttl) ≡ true = ground (arith, answer, l) in
            rw (answer, written, same, live, client_same, owner, eligible) refl);
    }
