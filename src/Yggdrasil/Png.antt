-- ===== src/Yggdrasil/Png.antt =====
-- crates/yggdrasil-protocol/src/png.rs: the header of a skin or a cape. A buffer is its bytes; every
-- read stands behind the check of the length.
pub mod Bytes
pub mod Header
use mathlib.Core.Bool.{Bool, true, false, ◌&&◌, ◌||◌, not}
use loontail_minecraft_netwo.Prelude.{
  ℕ, ◌+◌, ◌*◌, List, [], ◌∷◌, ltb, nat_beq, if◌then◌else◌, length, take, drop, ◌==◌,
}
use loontail_minecraft_netwo.Prelude.Text.{bytes_eq, bytes_beq}
use loontail_minecraft_netwo.Yggdrasil.Uuid.{Text}

abbrev pub png_signature : Text
png_signature = 137 ∷ 80 ∷ 78 ∷ 71 ∷ 13 ∷ 10 ∷ 26 ∷ 10 ∷ []

abbrev pub ihdr : Text
ihdr = b'I' ∷ b'H' ∷ b'D' ∷ b'R' ∷ []

abbrev pub ihdr_length : ℕ
ihdr_length = 13

abbrev pub png_header_min_bytes : ℕ
png_header_min_bytes = 24

pub data PngKind : Type 0 where
  skin cape : PngKind

pub data PngError : Type 0 where
  too_small bad_signature bad_ihdr_type : PngError
  bad_ihdr_length : ℕ → PngError
  bad_dimensions : ℕ → ℕ → PngError

pub data PngResult : Type 0 where
  valid : ℕ → ℕ → PngResult
  failed : PngError → PngResult

-- `u32::from_be_bytes`
abbrev pub from_be_bytes : Text → ℕ
from_be_bytes (a ∷ b ∷ c ∷ d ∷ bs) = ((a * 256 + b) * 256 + c) * 256 + d
from_be_bytes _ = 0

abbrev pub read_u32_be : Text → ℕ → ℕ
read_u32_be buf offset = from_be_bytes (drop offset buf)

unfoldable pub parse_png_header : Text → PngResult
parse_png_header buf =
    if ltb (length buf) png_header_min_bytes
    then failed too_small
    else if not (take 8 buf == png_signature)
    then failed bad_signature
    else if not (nat_beq (read_u32_be buf 8) ihdr_length)
    then failed (bad_ihdr_length (read_u32_be buf 8))
    else if not (take 4 (drop 12 buf) == ihdr)
    then failed bad_ihdr_type
    else valid (read_u32_be buf 16) (read_u32_be buf 20)

abbrev pub is_allowed : PngKind → ℕ → ℕ → Bool
is_allowed skin width height = nat_beq width 64 && (nat_beq height 64 || nat_beq height 32)
is_allowed cape width height = nat_beq width 64 && nat_beq height 32

unfoldable pub validate_png : Text → PngKind → PngResult
unfolding parse_png_header
validate_png buf kind = elim (parse_png_header buf) [
  | failed e ↦ failed e
  | valid width height ↦
      if is_allowed kind width height
      then valid width height
      else failed (bad_dimensions width height)
]
