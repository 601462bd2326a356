-- ===== src/Yggdrasil/Handshake/Vouching.antt =====
-- A game server is told of a player only after the player has joined it with a live token.
use Prim.Native.String.{String}
use mathlib.Core.Bool.{true, false}
use loontail_minecraft_netwo.Prelude.{
  ℕ, ◌<◌, ◌≡◌, ◌⊎◌, refl, ap, sym, ◌∙◌, Option, none, some, List, [], ◌∷◌, find, arith, Bool-cases,
  Option-cases, inl, inr, ◌==◌, ==-sound, ==-refl,
}
use loontail_minecraft_netwo.Prelude.Map.{
  lookup, Distinct, lookup-insert, insert-Distinct, retain-Distinct,
}
use loontail_minecraft_netwo.Prelude.Text.{string_eq, bytes_eq}
use loontail_minecraft_netwo.Server.Ip.{trim}
use loontail_minecraft_netwo.Core.Account.{Text, Account, Auth, AuthEnv, ok, Result-cases}
use loontail_minecraft_netwo.Core.Tokens.{has_account_id, validate_yggdrasil}
use loontail_minecraft_netwo.Yggdrasil.Uuid
use loontail_minecraft_netwo.Yggdrasil.JoinSessions.{
  JoinSession, is_expired, Sessions, sweep, announced, record_join, take_join,
}
use loontail_minecraft_netwo.Yggdrasil.JoinSessions.SingleUse.{live, lookup-sweep, take_join-parts}
use loontail_minecraft_netwo.Yggdrasil.Handshake.{
  ProfileIdentity, served, no_content, is_claimed, join, same_ip, same_name, identify, has_joined,
}

-- A call with the clock and the database that it meets.
pub data Call : Type 0 where
  joins : (env : AuthEnv) (s : Auth) (access selected_profile : Text) (server_id : String) → Call
  asks :
      (env : AuthEnv) (s : Auth) (username : Text) (server_id : String) (ip : Option String) → Call

-- The join sessions after some calls, the newest first.
unfoldable pub after : List Call → Sessions
after [] = []
after (joins env s access profile id ∷ cs) = (join env access profile id s (after cs)).1
after (asks env s username id ip ∷ cs) = (has_joined env username id ip s (after cs)).1

-- A call that announces a session: the token was live, and its account owns the named profile.
pub data Announces (id : String) (x : JoinSession) : Call → Type 0 where
  by_join :
      (env : AuthEnv) (s : Auth) (access profile uuid : Text) (user : Account)
      → validate_yggdrasil env access none s ≡ ok user
      → user.profile_uuid ≡ some uuid
      → Uuid.undash_uuid profile ≡ Uuid.ok uuid
      → x ≡ announced env.now user.id none
      → Announces id x (joins env s access profile id)

abbrev pub Announced : String → JoinSession → List Call → Type 0
Announced id x [] = ⊥
Announced id x (c ∷ cs) = Announces id x c ⊎ Announced id x cs

claimed_uuid : (uuid : Text) (r : Uuid.UuidResult) → is_claimed uuid r ≡ true → r ≡ Uuid.ok uuid
claimed_uuid uuid (Uuid.ok claimed) h = ap (λ z. Uuid.ok z) (==-sound claimed uuid h)
claimed_uuid uuid (Uuid.invalid value) h = absurd (cc)

join-cases :
    (env : AuthEnv) (access profile : Text) (id : String) (s : Auth) (m : Sessions)
    → ((join env access profile id s m).1 ≡ m)
      ⊎ ((user : Account) × (uuid : Text) × (validate_yggdrasil env access none s ≡ ok user)
          × (user.profile_uuid ≡ some uuid)
          × (Uuid.undash_uuid profile ≡ Uuid.ok uuid)
          × ((join env access profile id s m).1 ≡ record_join env.now id user.id none m))
unfolding join
join-cases env access profile id s m = elim (Result-cases (validate_yggdrasil env access none s)) [
  | inr (e, h) ↦ inl (rw (h, join) refl)
  | inl (user, h) ↦ elim (Option-cases user.profile_uuid) [
    | inl n ↦ inl (rw (h, n, join) refl)
    | inr (uuid, p) ↦ elim (Bool-cases (is_claimed uuid (Uuid.undash_uuid profile))) [
      | inr n ↦ inl (rw (h, p, n, join) refl)
      | inl y ↦ inr (user, uuid, h, p, claimed_uuid uuid _ y, rw (h, p, y, join) refl)
    ]
  ]
]

has_joined-state :
    (env : AuthEnv) (username : Text) (id : String) (ip : Option String) (s : Auth) (m : Sessions)
    → (has_joined env username id ip s m).1 ≡ (take_join env.now id m).1
unfolding has_joined
has_joined-state env username id ip s m = elim (Option-cases (take_join env.now id m).0) [
  | inl e ↦ rw (e, has_joined) refl
  | inr (x, e) ↦ elim (Bool-cases (same_ip x.ip ip)) [
    | inr n ↦ rw (e, n, has_joined) refl
    | inl y ↦ elim (Option-cases (find (has_account_id x.user_id) s.accounts)) [
      | inl f ↦ rw (e, y, f, has_joined) refl
      | inr (a, f) ↦ rw (e, y, f, has_joined) refl
    ]
  ]
]

after-Distinct : (cs : List Call) → Distinct (after cs)
unfolding after record_join
after-Distinct [] = tt
after-Distinct (joins env s access profile id ∷ cs) =
    elim (join-cases env access profile id s (after cs)) [
      | inl e ↦ rw e (after-Distinct cs)
      | inr (user, uuid, h, p, q, e) ↦
          rw e (insert-Distinct id _ _ (retain-Distinct _ (after cs) (after-Distinct cs)))
    ]
after-Distinct (asks env s username id ip ∷ cs) =
    rw (has_joined-state env username id ip s (after cs))
      (take_join-parts env.now id id (after cs) (after-Distinct cs)).2

live-some :
    (now : ℕ) (o : Option JoinSession) (x : JoinSession)
    → live now o ≡ some x
    → (o ≡ some x) × (is_expired now x ≡ false)
live-some now none x h = absurd (cc)
live-some now (some y) x h = elim (Bool-cases (is_expired now y)) [
  | inl e ↦ absurd (let k = rw e at h in cc)
  | inr n ↦ (let k = rw n at h in let same : y ≡ x = cc in (k, rw (← same) n))
]

stored-Announced :
    (cs : List Call) (id : String) (x : JoinSession)
    → lookup id (after cs) ≡ some x
    → Announced id x cs
unfolding after record_join lookup
stored-Announced [] id x h = absurd (cc)
stored-Announced (joins env s access profile at ∷ cs) id x h =
    elim (join-cases env access profile at s (after cs)) [
      | inl e ↦ inr (stored-Announced cs id x (ap (lookup id) (sym e) ∙ h))
      | inr (user, uuid, v, p, q, e) ↦
          let new = announced env.now user.id none in
          let k : lookup id (record_join env.now at user.id none (after cs)) ≡ some x =
            ap (lookup id) (sym e) ∙ h in
          let j = sym (lookup-insert at id new (sweep env.now (after cs))) ∙ k in
          elim (Bool-cases (at == id)) [
            | inl y ↦
                (let i = rw y at j in
                  let same : x ≡ new = cc in
                  rw (==-sound at id y) (inl (by_join env s access profile uuid user v p q same)))
            | inr n ↦
                (let i = rw n at j in
                  let old =
                    live-some env.now (lookup id (after cs)) x
                      (sym (lookup-sweep env.now id (after cs) (after-Distinct cs)) ∙ i) in
                  inr (stored-Announced cs id x old.0))
          ]
    ]
stored-Announced (asks env s username at ip ∷ cs) id x h =
    let left = (take_join-parts env.now at id (after cs) (after-Distinct cs)).1 in
    let j =
      sym left ∙ ap (lookup id) (sym (has_joined-state env username at ip s (after cs))) ∙ h in
    elim (Bool-cases (at == id)) [
      | inl y ↦ absurd (let i = rw y at j in cc)
      | inr n ↦
          (let i = rw n at j in
            let old = live-some env.now (lookup id (after cs)) x i in
            inr (stored-Announced cs id x old.0))
    ]

-- What stands behind the answer that a player has joined.
pub record Vouched (cs : List Call) (env : AuthEnv) (username : Text) (id : String) (s : Auth)
    (p : ProfileIdentity) : Type 0 where
  pub session : JoinSession
  pub announced : Announced id session cs
  pub in_time : env.now < session.expires_at
  pub account : Account
  pub known : find (has_account_id session.user_id) s.accounts ≡ some account
  pub identity :
      (p.user_id ≡ account.id)
      × ((some p.profile_uuid ≡ account.profile_uuid) × (p.username ≡ account.username))
  pub asked_for : same_name account.username (trim username) ≡ true

identify-served :
    (user : Account) (username : Text) (p : ProfileIdentity)
    → identify user username ≡ served p
    → ((p.user_id ≡ user.id)
        × ((some p.profile_uuid ≡ user.profile_uuid) × (p.username ≡ user.username)))
      × (same_name user.username (trim username) ≡ true)
unfolding identify
identify-served user username p h = elim (Bool-cases (same_name user.username (trim username))) [
  | inr n ↦ absurd (let k = rw (n, identify) at h in cc)
  | inl y ↦ elim (Option-cases user.profile_uuid) [
    | inl e ↦ absurd (let k = rw (y, e, identify) at h in cc)
    | inr (uuid, e) ↦ (let k = rw (y, e, identify) at h in ((cc, (cc, cc)), y))
  ]
]

nobody :
    (env : AuthEnv) (username : Text) (id : String) (ip : Option String) (s : Auth) (m : Sessions)
    → lookup id m ≡ none
    → Distinct m
    → (has_joined env username id ip s m).0 ≡ no_content
unfolding has_joined
nobody env username id ip s m n d =
    let e : (take_join env.now id m).0 ≡ none =
      (take_join-parts env.now id id m d).0 ∙ ap (live env.now) n in
    rw (e, has_joined) refl

-- Whatever calls came before, each with its own clock and database: a game server that is told that
-- a player has joined is told of an account that announced this server id with a live token, as
-- the owner of its profile, less than the lifetime of a session ago, and that has the name it
-- asked for; and whoever asks for the same server id next is told of nobody.
pub has_joined-Vouched :
    (cs : List Call) (env next : AuthEnv) (username other : Text) (id : String)
    (ip there : Option String) (s t : Auth) (p : ProfileIdentity)
    → (has_joined env username id ip s (after cs)).0 ≡ served p
    → Vouched cs env username id s p
      × ((has_joined next other id there t (after (asks env s username id ip ∷ cs))).0 ≡ no_content)
unfolding has_joined after
has_joined-Vouched cs env next username other id ip there s t p h =
    let d = after-Distinct cs in
    let parts = take_join-parts env.now id id (after cs) d in
    let state = has_joined-state env username id ip s (after cs) in
    let gone : lookup id (take_join env.now id (after cs)).1 ≡ none = rw (==-refl id) at parts.1 in
    (
      elim (Option-cases (take_join env.now id (after cs)).0) [
        | inl e ↦ absurd (let k = rw (e, has_joined) at h in cc)
        | inr (x, e) ↦ elim (Bool-cases (same_ip x.ip ip)) [
          | inr n ↦ absurd (let k = rw (e, n, has_joined) at h in cc)
          | inl y ↦ elim (Option-cases (find (has_account_id x.user_id) s.accounts)) [
            | inl f ↦ absurd (let k = rw (e, y, f, has_joined) at h in cc)
            | inr (a, f) ↦
                (let k = rw (e, y, f, has_joined) at h in
                  let (i, n) = identify-served a username p k in
                  let (l, fresh) = live-some env.now (lookup id (after cs)) x (sym parts.0 ∙ e) in
                  record {
                    session = x;
                    announced = stored-Announced cs id x l;
                    in_time = ground (arith, fresh);
                    account = a;
                    known = f;
                    identity = i;
                    asked_for = n;
                  })
          ]
        ]
      ],
      nobody next other id there t (has_joined env username id ip s (after cs)).1 (rw state gone)
          (rw state parts.2),
    )
