-- ===== src/Core/Headers.antt =====
-- The credentials in the headers of a request: crates/core/src/auth/mod.rs and csrf.rs.
use mathlib.Core.Bool.{Bool, true, false, ◌||◌, not}
use loontail_minecraft_netwo.Prelude.{
  ℕ, Option, none, some, List, [], ◌∷◌, nat_beq, if◌then◌else◌, ◌==◌,
}
use loontail_minecraft_netwo.Prelude.Text.{bytes_eq}
use loontail_minecraft_netwo.Server.Ip.{trim}
use loontail_minecraft_netwo.Core.Account.{Text}

-- The headers that authentication reads; `none` where `get` or `to_str` fails.
pub record HeaderMap : Type 0 where
  pub authorization : Option Text
  pub cookie : Option Text
  pub x_csrf_token : Option Text

abbrev pub is_empty : Text → Bool
is_empty [] = true
is_empty (b ∷ bs) = false

unfoldable pub strip_prefix : Text → Text → Option Text
strip_prefix [] text = some text
strip_prefix (p ∷ ps) [] = none
strip_prefix (p ∷ ps) (b ∷ bs) = let rest = strip_prefix ps bs in if nat_beq p b then rest else none

abbrev pub bearer : Text
bearer = b'B' ∷ b'e' ∷ b'a' ∷ b'r' ∷ b'e' ∷ b'r' ∷ b' ' ∷ []

abbrev pub bearer_lower : Text
bearer_lower = b'b' ∷ b'e' ∷ b'a' ∷ b'r' ∷ b'e' ∷ b'r' ∷ b' ' ∷ []

abbrev pub or_other : Option Text → Option Text → Option Text
or_other none other = other
or_other (some t) other = some t

abbrev pub non_empty : Text → Option Text
non_empty t = if is_empty t then none else some t

unfoldable pub bearer_token_from_headers : HeaderMap → Option Text
unfolding strip_prefix trim
bearer_token_from_headers headers = elim headers.authorization [
  | none ↦ none
  | some header ↦ elim (or_other (strip_prefix bearer header) (strip_prefix bearer_lower header)) [
    | none ↦ none
    | some token ↦ non_empty (trim token)
  ]
]

-- `str::split`: the pieces between the separators.
abbrev pub grow : ℕ → List Text → List Text
grow b [] = (b ∷ []) ∷ []
grow b (piece ∷ pieces) = (b ∷ piece) ∷ pieces

unfoldable pub split_on : ℕ → Text → List Text
split_on sep [] = [] ∷ []
split_on sep (b ∷ bs) =
    let rest = split_on sep bs in if nat_beq b sep then [] ∷ rest else grow b rest

-- `str::split_once`
abbrev pub longer : ℕ → Option (Text × Text) → Option (Text × Text)
longer b none = none
longer b (some (k, v)) = some (b ∷ k, v)

unfoldable pub split_once : ℕ → Text → Option (Text × Text)
split_once sep [] = none
split_once sep (b ∷ bs) =
    let rest = split_once sep bs in if nat_beq b sep then some ([], bs) else longer b rest

abbrev pub named_value : Text → Option (Text × Text) → Option Text
named_value name none = none
named_value name (some (k, v)) = if trim k == name then some (trim v) else none

unfoldable pub find_value : Text → List Text → Option Text
unfolding split_once trim
find_value name [] = none
find_value name (pair ∷ pairs) =
    or_other (named_value name (split_once b'=' (trim pair))) (find_value name pairs)

unfoldable pub cookie_value : HeaderMap → Text → Option Text
unfolding split_on find_value
cookie_value headers name = elim headers.cookie [
  | none ↦ none
  | some header ↦ find_value name (split_on b';' header)
]

pub data TokenSource : Type 0 where
  from_bearer from_cookie : TokenSource

unfoldable pub session_token : HeaderMap → Text → Option (Text × TokenSource)
unfolding bearer_token_from_headers cookie_value
session_token headers cookie_name = elim (bearer_token_from_headers headers) [
  | some token ↦ some (token, from_bearer)
  | none ↦ elim (cookie_value headers cookie_name) [
    | none ↦ none
    | some token ↦ some (token, from_cookie)
  ]
]

unfoldable pub session_token_from_headers : HeaderMap → Text → Option Text
unfolding bearer_token_from_headers cookie_value
session_token_from_headers headers cookie_name =
    or_other (bearer_token_from_headers headers) (cookie_value headers cookie_name)

abbrev pub csrf_cookie_name : Text
csrf_cookie_name =
    b'l' ∷ b'o' ∷ b'o' ∷ b'n' ∷ b't' ∷ b'a' ∷ b'i' ∷ b'l' ∷ b'_' ∷ b'c' ∷ b's' ∷ b'r' ∷ b'f' ∷ []

-- `constant_time_eq` answers the equality of two texts.
unfoldable pub verify_csrf : HeaderMap → Bool
unfolding cookie_value
verify_csrf headers = elim (cookie_value headers csrf_cookie_name) [
  | none ↦ false
  | some cookie ↦ elim headers.x_csrf_token [
    | none ↦ false
    | some header ↦ not (is_empty cookie || (is_empty header || not (cookie == header)))
  ]
]

pub data Method : Type 0 where
  get head options post put patch delete connect trace : Method
  extension : Text → Method

abbrev pub is_mutating : Method → Bool
is_mutating get = false
is_mutating head = false
is_mutating options = false
is_mutating _ = true
