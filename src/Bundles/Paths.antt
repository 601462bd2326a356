-- ===== src/Bundles/Paths.antt =====
-- crates/bundles/src/storage.rs: the paths below a build's directory. A text is its bytes, and a path
-- is read as on Unix: its components are what stands between slashes, but for nothing and a dot.
pub mod Contained
use mathlib.Core.Bool.{Bool, true, false, ◌&&◌, ◌||◌, not}
use mathlib.Core.Option
use loontail_minecraft_netwo.Prelude.{
  ℕ, Option, none, some, List, [], ◌∷◌, ◌++◌, map, nat_beq, any, keep, last?, if◌then◌else◌, ◌==◌,
}
use loontail_minecraft_netwo.Prelude.Text.{bytes_eq, bytes_beq}
use loontail_minecraft_netwo.Core.Account.{Text}
use loontail_minecraft_netwo.Core.Headers.{is_empty, split_on}
use loontail_minecraft_netwo.Core.Identity.{has_byte, starts_with}

abbrev pub dot : Text
dot = b'.' ∷ []

abbrev pub dots : Text
dots = b'.' ∷ b'.' ∷ []

abbrev pub backslash : ℕ
backslash = 92

unfoldable pub validate_slug : Text → Bool
validate_slug slug = not (
    is_empty slug
    || (slug == dot
        || (slug == dots || (has_byte b'/' slug || (has_byte backslash slug || has_byte 0 slug)))))

-- `replace('\\', "/")`
abbrev pub unified : Text → Text
unified raw = map (λ b. if nat_beq b backslash then b'/' else b) raw

-- `join("/")`
unfoldable pub join_parts : List Text → Text
join_parts [] = []
join_parts (p ∷ []) = p
join_parts (p ∷ q ∷ ps) = p ++ (b'/' ∷ join_parts (q ∷ ps))

abbrev pub is_named : Text → Bool
is_named segment = not (is_empty segment || segment == dot)

abbrev pub is_parent : Text → Bool
is_parent segment = segment == dots

pub data PathResult : Type 0 where
  inside : Text → PathResult
  not_relative escapes required : PathResult

abbrev pub joined : List Text → PathResult
joined [] = required
joined (p ∷ ps) = inside (join_parts (p ∷ ps))

unfoldable pub normalize_relative_path : Text → PathResult
unfolding split_on join_parts
normalize_relative_path raw =
    let segments = split_on b'/' (unified raw) in
    if starts_with b'/' (unified raw)
    then not_relative
    else if any is_parent segments
    then escapes
    else joined (keep is_named segments)

abbrev pub or_text : Text → Option Text → Text
or_text t none = t
or_text t (some u) = u

abbrev pub root_category : Text
root_category = b'r' ∷ b'o' ∷ b'o' ∷ b't' ∷ []

abbrev pub category_of : List Text → Text
category_of (p ∷ q ∷ ps) = p
category_of _ = root_category

unfoldable pub split_relative_path : Text → Text × Text
unfolding split_on
split_relative_path path =
    let parts = split_on b'/' path in (or_text path (last? parts), category_of parts)
