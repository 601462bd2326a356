-- ===== src/Admin/Users/Counting.antt =====
-- How many usable administrators a change by id, or a deletion, leaves.
use mathlib.Core.Bool.{true, false}
use loontail_minecraft_netwo.Prelude.{
  ℕ, ◌+◌, ◌≤◌, ◌≡◌, ◌⊎◌, refl, none, List, [], ◌∷◌, leb, any, find, keep, update_where, count_where,
  arith, Bool-cases, Option-cases, inl, inr,
}
use loontail_minecraft_netwo.Network.Effect.{AppError}
use loontail_minecraft_netwo.Core.Account.{Account, Auth}
use loontail_minecraft_netwo.Core.Tokens.{has_account_id}
use loontail_minecraft_netwo.Core.Identity.{IdentityEnv, Violation, violation, update_account}
use loontail_minecraft_netwo.Core.Identity.Table.{others}
use loontail_minecraft_netwo.Admin.Users.{is_usable_admin, is_usable_target, guard_last_admin}

abbrev pub usable : List Account → ℕ
usable xs = count_where is_usable_admin xs

-- A change by id costs at most one of them.
pub usable-changed :
    (id : ℕ) (f : Account → Account) (xs : List Account)
    → usable xs
      ≤ usable (update_where (has_account_id id) f xs) + count_where (has_account_id id) xs
unfolding count_where update_where
usable-changed id f [] = omega arith
usable-changed id f (x ∷ xs) = ground (arith, usable-changed id f xs)

pub usable-others :
    (id : ℕ) (xs : List Account)
    → usable xs ≤ usable (others id xs) + count_where (has_account_id id) xs
unfolding count_where keep
usable-others id [] = omega arith
usable-others id (x ∷ xs) = ground (arith, usable-others id xs)

-- None, where its row was not one.
pub spared-changed :
    (id : ℕ) (f : Account → Account) (xs : List Account)
    → any (is_usable_target id) xs ≡ false
    → usable xs ≤ usable (update_where (has_account_id id) f xs)
unfolding count_where update_where any
spared-changed id f [] h = omega arith
spared-changed id f (x ∷ xs) h = ground (arith, spared-changed id f xs)

pub spared-others :
    (id : ℕ) (xs : List Account)
    → any (is_usable_target id) xs ≡ false
    → usable xs ≤ usable (others id xs)
unfolding count_where keep any
spared-others id [] h = omega arith
spared-others id (x ∷ xs) h = ground (arith, spared-others id xs)

-- None, where the change keeps them.
pub kept-changed :
    (id : ℕ) (f : Account → Account) (xs : List Account)
    → ((a : Account) → is_usable_admin a ≡ true → is_usable_admin (f a) ≡ true)
    → usable xs ≤ usable (update_where (has_account_id id) f xs)
unfolding count_where update_where
kept-changed id f [] k = omega arith
kept-changed id f (x ∷ xs) k = ground (arith, kept-changed id f xs k, k x)

abbrev pub OneRow : Auth → Type 0
OneRow s = (id : ℕ) → count_where (has_account_id id) s.accounts ≤ 1

pub guard-none :
    (id : ℕ) (s : Auth)
    → guard_last_admin id s ≡ none
    → (any (is_usable_target id) s.accounts ≡ false) ⊎ (2 ≤ usable s.accounts)
unfolding guard_last_admin
guard-none id s h = elim (Bool-cases (any (is_usable_target id) s.accounts)) [
  | inr n ↦ inl n
  | inl y ↦ elim (Bool-cases (leb (usable s.accounts) 1)) [
    | inl z ↦ absurd (let k = rw (y, z, guard_last_admin) at h in cc)
    | inr z ↦ inr (ground (arith, z))
  ]
]

pub update_account-state :
    (env : IdentityEnv) (m : Violation → AppError) (absent : AppError) (id : ℕ)
    (f : Account → Account) (s : Auth)
    → ((update_account env m absent id f s).1.accounts ≡ s.accounts)
      ⊎ ((update_account env m absent id f s).1.accounts
          ≡ update_where (has_account_id id) f s.accounts)
unfolding update_account
update_account-state env m absent id f s =
    elim (Option-cases (find (has_account_id id) s.accounts)) [
      | inl e ↦ inl (rw (e, update_account) refl)
      | inr (a, e) ↦ elim (Option-cases (violation env (f a) (others id s.accounts))) [
        | inr (v, h) ↦ inl (rw (e, h, update_account) refl)
        | inl h ↦ inr (rw (e, h, update_account) refl)
      ]
    ]
