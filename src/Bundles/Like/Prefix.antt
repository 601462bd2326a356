-- ===== src/Bundles/Like/Prefix.antt =====
-- An escaped prefix matches exactly the texts that begin with it.
use mathlib.Core.Bool.{false, ◌&&◌}
use loontail_minecraft_netwo.Prelude.{
  ℕ, ◌≡◌, refl, ap, ◌∙◌, [], ◌∷◌, ◌++◌, nat_beq, arith, Bool-cases, inl, inr,
}
use loontail_minecraft_netwo.Core.Account.{Text}
use loontail_minecraft_netwo.Bundles.Archive.{has_prefix}
use loontail_minecraft_netwo.Bundles.Paths.{backslash}
use loontail_minecraft_netwo.Bundles.Like.{
  is_wild, escape_like_pattern, one_char, like, like_prefix,
}

append-cons : (xs : Text) (y : ℕ) (ys : Text) → (q : ℕ) × (qs : Text) × (xs ++ (y ∷ ys) ≡ q ∷ qs)
append-cons [] y ys = (y, ys, refl)
append-cons (x ∷ xs) y ys = (x, xs ++ (y ∷ ys), refl)

-- A character that is no wildcard matches itself.
like-plain :
    (c : ℕ) (pattern t : Text)
    → is_wild c ≡ false
    → (q : ℕ) (qs : Text) → pattern ≡ q ∷ qs
    → like (c ∷ pattern) t ≡ one_char (nat_beq c) (like pattern) t
unfolding like
like-plain c pattern t n q qs e =
    let a : nat_beq c backslash ≡ false = ground (arith, n) in
    let b : nat_beq c b'%' ≡ false = ground (arith, n) in
    let d : nat_beq c b'_' ≡ false = ground (arith, n) in rw e (rw (a, b, d, like) refl)

like_prefix-cons :
    (c : ℕ) (cs t : Text) → like_prefix (c ∷ cs) t ≡ one_char (nat_beq c) (like_prefix cs) t
unfolding like_prefix like escape_like_pattern
like_prefix-cons c cs t = elim (Bool-cases (is_wild c)) [
  | inl y ↦ rw y refl
  | inr n ↦
      (let (q, qs, e) = append-cons (escape_like_pattern cs) b'%' [] in
        rw n (like-plain c (escape_like_pattern cs ++ (b'%' ∷ [])) t n q qs e))
]

-- Whatever its characters, a prefix that is escaped for LIKE, with a `%` behind it, matches exactly
-- the texts that begin with the prefix itself.
pub like_prefix-eq-has_prefix : (prefix t : Text) → like_prefix prefix t ≡ has_prefix prefix t
unfolding like_prefix
like_prefix-eq-has_prefix [] t = refl
like_prefix-eq-has_prefix (c ∷ cs) [] = like_prefix-cons c cs []
like_prefix-eq-has_prefix (c ∷ cs) (b ∷ bs) =
    like_prefix-cons c cs (b ∷ bs) ∙ ap (λ z. nat_beq c b && z) (like_prefix-eq-has_prefix cs bs)
