-- ===== src/Core/Identity/Reconciled.antt =====
-- One account to a Minecraft identity: the reconciliation rule holds of the table after any call.
use mathlib.Core.Bool.{Bool, true, false, not}
use loontail_minecraft_netwo.Prelude.{
  ℕ, ◌≡◌, ◌≤◌, ◌<◌, ◌∙◌, refl, Option, none, some, List, find, keep, count_where,
  count_where-keep-le, All-keep, arith, Option-cases, inl, inr,
}
use loontail_minecraft_netwo.Prelude.Text.{bytes_eq}
use loontail_minecraft_netwo.Network.Effect.{database}
use loontail_minecraft_netwo.Core.Account.{Text, Account, Auth}
use loontail_minecraft_netwo.Core.Tokens.{has_account_id}
use loontail_minecraft_netwo.Core.Headers.{non_empty}
use loontail_minecraft_netwo.Core.Identity.{
  IdentityEnv, both_same, map_create_conflict, plain_database, authenticate_password,
  find_or_create_from_bootstrap,
}
use loontail_minecraft_netwo.Core.Identity.Registry.{
  AdminCreateUser, given, admin_create_user, register_user, UpdateUser, updated, update_user,
  set_password, with_blocked, set_blocked, linked, map_bootstrap_conflict, link_minecraft_uuid,
  load_user,
}
use loontail_minecraft_netwo.Core.Identity.Table.{key_of}
use loontail_minecraft_netwo.Admin.Users
use loontail_minecraft_netwo.Admin.Users.{guard_last_admin}
use loontail_minecraft_netwo.Yggdrasil.Uuid
use loontail_minecraft_netwo.Core.Identity.Invariant.{
  IsReconciled, Holds, Agrees, update-Holds, Agrees-pair, Agrees-none, Uuid-cases,
}
use loontail_minecraft_netwo.Core.Identity.Kept.{
  authenticate-Holds, bootstrap-Holds, create-Holds, register-Holds, set_password-Holds,
}

-- The bootstrap of an agent sets a Minecraft UUID where there is none, without a look at the profile.
-- It fits if the UUID is that of the profile.
abbrev pub is_profile : Option Text → Option Text → Bool
is_profile none profile = true
is_profile (some mc) profile = elim (Uuid.undash_uuid mc) [
  | Uuid.ok uuid ↦ both_same profile (some uuid)
  | Uuid.invalid e ↦ false
]

abbrev pub suits : IdentityEnv → Text → Account → Bool
suits env mc a = elim a.minecraft_uuid [
  | some known ↦ true
  | none ↦ is_profile (non_empty (env.trim mc)) a.profile_uuid
]

linked-Agrees :
    (env : IdentityEnv) (mc : Text) (a : Account)
    → suits env mc a ≡ true
    → Agrees a
    → Agrees (linked env mc a)
linked-Agrees env mc a h old = elim (Option-cases a.minecraft_uuid) [
  | inr (known, e) ↦ (λ m f. old m (e ∙ (let k = rw e at f in k)))
  | inl n ↦ elim (Option-cases (non_empty (env.trim mc))) [
    | inl m ↦ Agrees-none (linked env mc a) (rw (n, m) refl)
    | inr (given, m) ↦ elim (Uuid-cases (Uuid.undash_uuid given)) [
      | inr (x, u) ↦ absurd (let k = rw (n, m, u, is_profile) at h in cc)
      | inl (uuid, u) ↦
          Agrees-pair given uuid (linked env mc a) u (rw (n, m) refl)
            (key_of a.profile_uuid uuid (let k = rw (n, m, u, is_profile) at h in k))
    ]
  ]
]

link-Holds :
    (env : IdentityEnv) (id : ℕ) (mc : Text) (s : Auth)
    → ((a : Account) → find (has_account_id id) s.accounts ≡ some a → suits env mc a ≡ true)
    → Holds env s
    → Holds env (link_minecraft_uuid env id mc s).1
unfolding link_minecraft_uuid
link-Holds env id mc s fit v =
    update-Holds env map_bootstrap_conflict database id (linked env mc) s (λ a. refl)
      (λ a e h. linked-Agrees env mc a (fit a e) h) v

keep_unique :
    (p q : Account → Bool) (xs : List Account)
    → count_where p xs ≤ 1
    → count_where p (keep q xs) ≤ 1
keep_unique p q xs h = omega (arith, count_where-keep-le p q xs, h)

delete-Holds :
    (env : IdentityEnv) (id : ℕ) (s : Auth) → Holds env s → Holds env (Users.delete id s).1
unfolding Users.delete load_user
delete-Holds env id s v = elim (Option-cases (find (has_account_id id) s.accounts)) [
  | inl n ↦ rw (n, Users.delete) v
  | inr (a, e) ↦ elim (Option-cases (guard_last_admin id s)) [
    | inr (x, g) ↦ rw (e, g, Users.delete) v
    | inl g ↦
        (let q : Account → Bool = (λ b. not (has_account_id id b)) in
          rw (e, g, Users.delete)
            (record {
              used = All-keep (λ b. b.id < s.next_id) q s.accounts v.used;
              one_row = λ i. keep_unique _ q s.accounts (v.one_row i);
              one_minecraft = λ k. keep_unique _ q s.accounts (v.one_minecraft k);
              one_profile = λ k. keep_unique _ q s.accounts (v.one_profile k);
              one_username = λ k. keep_unique _ q s.accounts (v.one_username k);
              one_email = λ k. keep_unique _ q s.accounts (v.one_email k);
              agree = All-keep Agrees q s.accounts v.agree;
            }))
  ]
]

-- Every statement that writes `users`: those of identity.rs, the bootstrap of an agent, and the
-- deletion by an administrator.
pub data Call : Type 0 where
  bootstraps : (minecraft_uuid username : Text) → Call
  signs_in : (identifier password : Text) → Call
  registers : (username email password : Text) → Call
  creates : (input : AdminCreateUser) → Call
  edits : (id : ℕ) (patch : UpdateUser) → Call
  sets_password : (id : ℕ) (new : Text) → Call
  blocks : (id : ℕ) (blocked : Bool) → Call
  links : (id : ℕ) (minecraft_uuid : Text) → Call
  deletes : (id : ℕ) → Call

abbrev pub fits : IdentityEnv → Call → Auth → Bool
fits env (links id mc) s = elim (find (has_account_id id) s.accounts) [
  | none ↦ true
  | some a ↦ suits env mc a
]
fits env _ s = true

unfoldable pub step : IdentityEnv → Call → Auth → Auth
step env (bootstraps mc username) s = (find_or_create_from_bootstrap env mc username s).1
step env (signs_in identifier password) s = (authenticate_password env identifier password s).1
step env (registers name email password) s = (register_user env name email password s).1
step env (creates input) s = (admin_create_user env input s).1
step env (edits id patch) s = (update_user env id patch s).1
step env (sets_password id new) s = (set_password env id new s).1
step env (blocks id blocked) s = (set_blocked env id blocked s).1
step env (links id mc) s = (link_minecraft_uuid env id mc s).1
step env (deletes id) s = (Users.delete id s).1

-- Every call that writes the accounts, whatever it answers, keeps the reconciliation invariant: an
-- account with a known Minecraft UUID has its undashed form as its profile, and an id, a Minecraft
-- UUID, a profile, a username and an email each name at most one account. The one condition is on the
-- bootstrap of an agent, which does not check it: a UUID that it links to an account without one is
-- the account's profile, or blank.
pub step-IsReconciled :
    (env : IdentityEnv) (c : Call) (s : Auth)
    → fits env c s ≡ true
    → IsReconciled env s.accounts s.next_id
    → IsReconciled env (step env c s).accounts (step env c s).next_id
unfolding step update_user set_password set_blocked
step-IsReconciled env (bootstraps mc username) s f v = bootstrap-Holds env mc username s v
step-IsReconciled env (signs_in identifier password) s f v =
    authenticate-Holds env identifier password s v
step-IsReconciled env (registers name email password) s f v =
    register-Holds env name email password s v
step-IsReconciled env (creates input) s f v = create-Holds env input s v
step-IsReconciled env (edits id patch) s f v =
    update-Holds env map_create_conflict _ id (updated env patch) s (λ a. refl) (λ a e h. h) v
step-IsReconciled env (sets_password id new) s f v = set_password-Holds env id new s v
step-IsReconciled env (blocks id blocked) s f v =
    update-Holds env plain_database _ id (with_blocked blocked) s (λ a. refl) (λ a e h. h) v
step-IsReconciled env (links id mc) s f v =
    link-Holds env id mc s (λ a e. (let k = rw (e, fits) at f in k)) v
step-IsReconciled env (deletes id) s f v = delete-Holds env id s v
