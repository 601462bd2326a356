-- ===== src/Bundles/Like.antt =====
-- `escape_like_pattern` of crates/core/src/models.rs, and the prefix test of the queries of
-- crates/bundles/src/repo.rs, `relative_path LIKE $2 || '%' ESCAPE '\'`, with SQL's LIKE written out.
pub mod Prefix
use mathlib.Core.Bool.{Bool, true, false, ◌&&◌, ◌||◌}
use loontail_minecraft_netwo.Prelude.{ℕ, List, [], ◌∷◌, ◌++◌, nat_beq, if◌then◌else◌}
use loontail_minecraft_netwo.Core.Account.{Text}
use loontail_minecraft_netwo.Bundles.Paths.{backslash}

abbrev pub is_wild : ℕ → Bool
is_wild c = nat_beq c backslash || (nat_beq c b'%' || nat_beq c b'_')

unfoldable pub escape_like_pattern : Text → Text
escape_like_pattern [] = []
escape_like_pattern (c ∷ cs) =
    let rest = escape_like_pattern cs in if is_wild c then backslash ∷ c ∷ rest else c ∷ rest

-- Does a test hold of some end of the text?
unfoldable pub some_end : (Text → Bool) → Text → Bool
some_end f [] = f []
some_end f (c ∷ cs) = f (c ∷ cs) || some_end f cs

abbrev pub one_char : (ℕ → Bool) → (Text → Bool) → Text → Bool
one_char p f [] = false
one_char p f (c ∷ cs) = p c && f cs

-- SQL's LIKE with the escape character `\`: `%` is any text, `_` any character. A pattern that ends
-- in its escape character matches nothing.
unfoldable pub like : Text → Text → Bool
unfolding some_end
like [] t = elim t [ [] ↦ true | c ∷ cs ↦ false ]
like (p ∷ []) t =
    if nat_beq p backslash
    then false
    else if nat_beq p b'%'
    then true
    else one_char (λ c. nat_beq p b'_' || nat_beq p c) (like []) t
like (p ∷ q ∷ ps) t = elim (nat_beq p backslash) [
  | true ↦ one_char (nat_beq q) (like ps) t
  | false ↦ elim (nat_beq p b'%') [
    | true ↦ some_end (like (q ∷ ps)) t
    | false ↦ one_char (λ c. nat_beq p b'_' || nat_beq p c) (like (q ∷ ps)) t
  ]
]

unfoldable pub like_prefix : Text → Text → Bool
unfolding like escape_like_pattern
like_prefix prefix t = like (escape_like_pattern prefix ++ (b'%' ∷ [])) t
