-- ===== src/Core/Identity/Invariant.antt =====
-- The reconciliation invariant, kept by an insertion and by a change of one row.
use mathlib.Core.Bool.{false}
use loontail_minecraft_netwo.Prelude.{
  ℕ, ◌≤◌, ◌<◌, ◌≡◌, ◌⊎◌, refl, ap, sym, ◌∙◌, Option, none, some, List, [], ◌∷◌, nat_beq, find,
  find-All, count_where, count_where-update-le, All, All-map, All-update_where, arith, Option-cases,
  inl, inr,
}
use loontail_minecraft_netwo.Prelude.Text.{bytes_eq}
use loontail_minecraft_netwo.Network.Effect.{AppError}
use loontail_minecraft_netwo.Core.Account.{Text, Account, Auth, ok}
use loontail_minecraft_netwo.Core.Tokens.{has_account_id}
use loontail_minecraft_netwo.Core.Identity.{
  IdentityEnv, Violation, minecraft_key, profile_key, username_key, email_key, clashes, violation,
  insert_account, update_account, reconcile_profile_uuid,
}
use loontail_minecraft_netwo.Core.Identity.Table.{
  IsUnique, others, added-IsUnique, changed-IsUnique, All-changed,
}
use loontail_minecraft_netwo.Yggdrasil.Uuid

-- The rule: a known Minecraft UUID determines the profile.
abbrev pub Agrees : Account → Type 0
Agrees a =
    (mc : Text)
    → a.minecraft_uuid ≡ some mc
    → (profile : Text) × (Uuid.undash_uuid mc ≡ Uuid.ok profile) × (a.profile_uuid ≡ some profile)

pub record IsReconciled (env : IdentityEnv) (xs : List Account) (next : ℕ) : Type 0 where
  pub used : All (λ a. a.id < next) xs
  pub one_row : (id : ℕ) → count_where (has_account_id id) xs ≤ 1
  pub one_minecraft : IsUnique (minecraft_key env) xs
  pub one_profile : IsUnique (profile_key env) xs
  pub one_username : IsUnique (username_key env) xs
  pub one_email : IsUnique (email_key env) xs
  pub agree : All Agrees xs

pub violation-none :
    (env : IdentityEnv) (row : Account) (xs : List Account)
    → violation env row xs ≡ none
    → (clashes (minecraft_key env) row xs ≡ false)
      × ((clashes (profile_key env) row xs ≡ false)
          × ((clashes (username_key env) row xs ≡ false)
              × (clashes (email_key env) row xs ≡ false)))
unfolding violation
violation-none env row xs h =
    (ground (arith, h), (ground (arith, h), (ground (arith, h), ground (arith, h))))

next_unused :
    (next : ℕ) (xs : List Account)
    → All (λ a. a.id < next) xs
    → count_where (has_account_id next) xs ≡ 0
unfolding count_where
next_unused next [] a = refl
next_unused next (x ∷ xs) a = ground (arith, a.0, next_unused next xs a.1)

abbrev pub Holds : IdentityEnv → Auth → Type 0
Holds env s = IsReconciled env s.accounts s.next_id

pub insert-Holds :
    (env : IdentityEnv) (m : Violation → AppError) (row : Account) (s : Auth)
    → row.id ≡ s.next_id
    → Agrees row
    → Holds env s
    → Holds env (insert_account env m row s).1
unfolding insert_account count_where
insert-Holds env m row s e a v = elim (Option-cases (violation env row s.accounts)) [
  | inr (x, h) ↦ rw (h, insert_account) v
  | inl h ↦
      (let (c1, (c2, (c3, c4))) = violation-none env row s.accounts h in
        let unused = next_unused s.next_id s.accounts v.used in
        rw (h, insert_account)
          (record {
            used = (omega (arith, e), All-map _ _ s.accounts (λ x l. omega (arith, l)) v.used);
            one_row = λ id. ground (arith, e, v.one_row id, unused);
            one_minecraft = added-IsUnique (minecraft_key env) row s.accounts c1 v.one_minecraft;
            one_profile = added-IsUnique (profile_key env) row s.accounts c2 v.one_profile;
            one_username = added-IsUnique (username_key env) row s.accounts c3 v.one_username;
            one_email = added-IsUnique (email_key env) row s.accounts c4 v.one_email;
            agree = (a, v.agree);
          }))
]

pub update-Holds :
    (env : IdentityEnv) (m : Violation → AppError) (absent : AppError) (id : ℕ)
    (f : Account → Account) (s : Auth)
    → ((a : Account) → (f a).id ≡ a.id)
    → ((a : Account) → find (has_account_id id) s.accounts ≡ some a → Agrees a → Agrees (f a))
    → Holds env s
    → Holds env (update_account env m absent id f s).1
unfolding update_account
update-Holds env m absent id f s keeps step v =
    elim (Option-cases (find (has_account_id id) s.accounts)) [
      | inl n ↦ rw (n, update_account) v
      | inr (a, e) ↦ elim (Option-cases (violation env (f a) (others id s.accounts))) [
        | inr (x, h) ↦ rw (e, h, update_account) v
        | inl h ↦
            (let (c1, (c2, (c3, c4))) = violation-none env (f a) (others id s.accounts) h in
              let one = v.one_row id in
              rw (e, h, update_account)
                (record {
                  used =
                      All-update_where (λ x. x.id < s.next_id) _ f s.accounts
                        (λ x l. rw (keeps x) l) v.used;
                  one_row = λ i.
                      (let le =
                          count_where-update-le (has_account_id i) (has_account_id id) f s.accounts
                            (λ x q p. ap (λ j. nat_beq j i) (sym (keeps x)) ∙ p) in
                        omega (arith, le, v.one_row i));
                  one_minecraft =
                      changed-IsUnique (minecraft_key env) id f s.accounts a one e c1
                        v.one_minecraft;
                  one_profile =
                      changed-IsUnique (profile_key env) id f s.accounts a one e c2 v.one_profile;
                  one_username =
                      changed-IsUnique (username_key env) id f s.accounts a one e c3 v.one_username;
                  one_email =
                      changed-IsUnique (email_key env) id f s.accounts a one e c4 v.one_email;
                  agree =
                      All-changed Agrees id f s.accounts a one e
                        (step a e (find-All Agrees _ s.accounts v.agree e)) v.agree;
                }))
      ]
    ]

-- A row with a known pair of UUIDs.
pub Agrees-pair :
    (mc profile : Text) (a : Account)
    → Uuid.undash_uuid mc ≡ Uuid.ok profile
    → a.minecraft_uuid ≡ some mc
    → a.profile_uuid ≡ some profile
    → Agrees a
Agrees-pair mc profile a u m p other e = let same : mc ≡ other = cc in (profile, rw (← same) u, p)

pub Agrees-none : (a : Account) → a.minecraft_uuid ≡ none → Agrees a
Agrees-none a n mc e = absurd (cc)

pub Uuid-cases :
    (r : Uuid.UuidResult) → ((p : Text) × (r ≡ Uuid.ok p)) ⊎ ((e : Text) × (r ≡ Uuid.invalid e))
Uuid-cases (Uuid.ok p) = inl (p, refl)
Uuid-cases (Uuid.invalid e) = inr (e, refl)

pub reconcile-Agrees :
    (env : IdentityEnv) (current : Option Text) (desired : Text) (a : Account)
    → reconcile_profile_uuid env a.minecraft_uuid current ≡ ok desired
    → a.profile_uuid ≡ some desired
    → Agrees a
unfolding reconcile_profile_uuid
reconcile-Agrees env current desired a h p mc e = elim (Uuid-cases (Uuid.undash_uuid mc)) [
  | inr (x, f) ↦ absurd (let k = rw (e, f, reconcile_profile_uuid) at h in cc)
  | inl (uuid, f) ↦
      (let k = rw (e, f, reconcile_profile_uuid) at h in
        let same : uuid ≡ desired = cc in (desired, f ∙ ap (λ z. Uuid.ok z) same, p))
]
