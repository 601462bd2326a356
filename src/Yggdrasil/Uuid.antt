-- ===== src/Yggdrasil/Uuid.antt =====
-- crates/yggdrasil-protocol/src/uuid.rs: the two texts of a UUID. A text is its UTF-8 bytes.
pub mod Pieces
pub mod Groups
pub mod RoundTrip
use mathlib.Core.Bool.{Bool, true, false, ◌&&◌, ◌||◌, not}
use loontail_minecraft_netwo.Prelude.{
  ℕ, zero, suc, ◌+◌, List, [], ◌∷◌, ◌++◌, map, leb, ltb, nat_beq, if◌then◌else◌, length, take, drop,
  all, keep,
}

abbrev pub Text : Type 0
Text = List ℕ

pub data UuidResult : Type 0 where
  ok : Text → UuidResult
  invalid : Text → UuidResult

abbrev pub is_ascii_hexdigit : ℕ → Bool
is_ascii_hexdigit b = (leb 48 b && leb b 57) || ((leb 65 b && leb b 70) || (leb 97 b && leb b 102))

abbrev pub to_lower : ℕ → ℕ
to_lower b = if leb 65 b && leb b 90 then b + 32 else b

abbrev pub is_dash : ℕ → Bool
is_dash b = nat_beq b b'-'

-- Every character has one byte that does not continue another.
abbrev pub continues : ℕ → Bool
continues b = leb 128 b && leb b 191

unfoldable pub char_count : Text → ℕ
char_count [] = 0
char_count (b ∷ bs) = let rest = char_count bs in if continues b then rest else suc rest

unfoldable pub take_chars : ℕ → Text → Text
take_chars n [] = []
take_chars zero (b ∷ bs) = let rest = take_chars zero bs in if continues b then b ∷ rest else []
take_chars (suc n) (b ∷ bs) =
    let same = take_chars (suc n) bs in
    let fewer = take_chars n bs in if continues b then b ∷ same else b ∷ fewer

unfoldable pub truncated : Text → Text
unfolding char_count take_chars
truncated value =
    if ltb 48 (char_count value) then take_chars 48 value ++ (226 ∷ 128 ∷ 166 ∷ []) else value

unfoldable pub is_uuid_undashed : Text → Bool
is_uuid_undashed value = nat_beq (length value) 32 && all is_ascii_hexdigit value

abbrev pub is_dash_place : ℕ → Bool
is_dash_place i = nat_beq i 8 || (nat_beq i 13 || (nat_beq i 18 || nat_beq i 23))

-- The loop over the bytes from the index `i` on.
unfoldable pub places_hold : ℕ → Text → Bool
places_hold i [] = true
places_hold i (b ∷ bs) =
    (if is_dash_place i then is_dash b else is_ascii_hexdigit b) && places_hold (suc i) bs

unfoldable pub is_uuid_dashed : Text → Bool
unfolding places_hold
is_uuid_dashed value = nat_beq (length value) 36 && places_hold 0 value

unfoldable pub undash_uuid : Text → UuidResult
unfolding is_uuid_undashed is_uuid_dashed truncated
undash_uuid value =
    if is_uuid_undashed value
    then ok (map to_lower value)
    else (if is_uuid_dashed value
        then ok (map to_lower (keep (λ b. not (is_dash b)) value))
        else invalid (truncated value))

-- `&v[from..to]`
abbrev pub slice : ℕ → ℕ → Text → Text
slice from count v = take count (drop from v)

abbrev pub with_dashes : Text → Text
with_dashes v =
    slice 0 8 v
    ++ (b'-'
        ∷ (slice 8 4 v
            ++ (b'-' ∷ (slice 12 4 v ++ (b'-' ∷ (slice 16 4 v ++ (b'-' ∷ slice 20 12 v)))))))

unfoldable pub dash_uuid : Text → UuidResult
unfolding is_uuid_undashed is_uuid_dashed truncated
dash_uuid value =
    if is_uuid_dashed value
    then ok (map to_lower value)
    else (if not (is_uuid_undashed value)
        then invalid (truncated value)
        else ok (with_dashes (map to_lower value)))
