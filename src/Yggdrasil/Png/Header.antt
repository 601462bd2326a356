-- ===== src/Yggdrasil/Png/Header.antt =====
-- Reading the header of a PNG file.
use mathlib.Core.Bool.{true, false}
use loontail_minecraft_netwo.Prelude.{
  ℕ, ◌^◌, ◌<◌, ◌≤◌, ◌≡◌, ap, sym, ◌∙◌, subst, Bool-cases, inl, inr, ◌↔◌, ◌⊎◌, refl, ◌++◌, ltb,
  nat_beq, length, take, drop, arith,
}
use loontail_minecraft_netwo.Prelude.Text.{bytes_eq, bytes_beq, bytes_beq_iff}
use loontail_minecraft_netwo.Yggdrasil.Uuid.{Text}
use loontail_minecraft_netwo.Yggdrasil.Png.{
  png_signature, ihdr, ihdr_length, PngKind, PngError, PngResult, valid, failed, read_u32_be,
  parse_png_header, is_allowed, validate_png,
}
use loontail_minecraft_netwo.Yggdrasil.Png.Bytes.{
  to_be_bytes, from_be_bytes-to, take-drop, drop-drop, AreBytes, read_u32_be-at,
}

-- A PNG file of the given size begins with its signature and its IHDR chunk.
abbrev pub png_file : ℕ → ℕ → Text → Text
png_file width height rest =
    png_signature
    ++ (to_be_bytes ihdr_length ++ (ihdr ++ (to_be_bytes width ++ (to_be_bytes height ++ rest))))

parse_png_header-png_file :
    (width height : ℕ) (rest : Text)
    → width < 2 ^ 32
    → height < 2 ^ 32
    → parse_png_header (png_file width height rest) ≡ valid width height
unfolding parse_png_header
parse_png_header-png_file width height rest w h =
    let long : ltb (length (png_file width height rest)) 24 ≡ false = ground arith in
    rw (long, from_be_bytes-to width (to_be_bytes height ++ rest) w, from_be_bytes-to height rest h)
      refl

glue :
    (f : ℕ → Text) (sig chunk buf p q d8 d12 d16 d20 rest : Text) (n m width height : ℕ)
    → buf ≡ p ++ d8
    → p ≡ sig
    → d8 ≡ f n ++ d12
    → n ≡ m
    → d12 ≡ q ++ d16
    → q ≡ chunk
    → d16 ≡ f width ++ d20
    → d20 ≡ f height ++ rest
    → buf ≡ sig ++ (f m ++ (chunk ++ (f width ++ (f height ++ rest))))
glue f sig chunk buf p q d8 d12 d16 d20 rest n m width height a b c d e g h i = cc

-- What the checks of the header establish.
checked :
    (buf : Text)
    → AreBytes buf
    → 24 ≤ length buf
    → take 8 buf ≡ png_signature
    → read_u32_be buf 8 ≡ ihdr_length
    → take 4 (drop 12 buf) ≡ ihdr
    → buf ≡ png_file (read_u32_be buf 16) (read_u32_be buf 20) (drop 24 buf)
checked buf v l s n t =
    glue to_be_bytes png_signature ihdr buf (take 8 buf) (take 4 (drop 12 buf)) (drop 8 buf)
      (drop 12 buf) (drop 16 buf) (drop 20 buf) (drop 24 buf) (read_u32_be buf 8) ihdr_length
      (read_u32_be buf 16) (read_u32_be buf 20) (sym (take-drop 8 buf)) s
      (read_u32_be-at 8 buf v (omega (arith, l))).0 n
      (sym (take-drop 4 (drop 12 buf))
        ∙ ap (λ z. take 4 (drop 12 buf) ++ z) (drop-drop 12 4 16 buf refl))
      t (read_u32_be-at 16 buf v (omega (arith, l))).0
      (read_u32_be-at 20 buf v (omega (arith, l))).0

parse_png_header_sound :
    (buf : Text) (width height : ℕ)
    → AreBytes buf
    → parse_png_header buf ≡ valid width height
    → (buf ≡ png_file width height (drop 24 buf)) × (width < 2 ^ 32) × (height < 2 ^ 32)
unfolding parse_png_header
parse_png_header_sound buf width height v h = elim (Bool-cases (ltb (length buf) 24)) [
  | inl y ↦ absurd (let k = rw (y, parse_png_header) at h in cc)
  | inr l ↦ elim (Bool-cases (bytes_beq (take 8 buf) png_signature)) [
    | inr y ↦ absurd (let k = rw (l, y, parse_png_header) at h in cc)
    | inl s ↦ elim (Bool-cases (nat_beq (read_u32_be buf 8) ihdr_length)) [
      | inr y ↦ absurd (let k = rw (l, s, y, parse_png_header) at h in cc)
      | inl n ↦ elim (Bool-cases (bytes_beq (take 4 (drop 12 buf)) ihdr)) [
        | inr y ↦ absurd (let k = rw (l, s, n, y, parse_png_header) at h in cc)
        | inl t ↦
            (let k : valid (read_u32_be buf 16) (read_u32_be buf 20) ≡ valid width height =
                rw (l, s, n, t, parse_png_header) at h in
              let w : read_u32_be buf 16 ≡ width = cc in
              let e : read_u32_be buf 20 ≡ height = cc in
              let long : 24 ≤ length buf = ground (arith, l) in
              let whole =
                checked buf v long ((bytes_beq_iff (take 8 buf) png_signature).0 s)
                  (ground (arith, n)) ((bytes_beq_iff (take 4 (drop 12 buf)) ihdr).0 t) in
              (
                whole ∙ (λ i. png_file (w i) (e i) (drop 24 buf)),
                subst (λ z. z < 2 ^ 32) w (read_u32_be-at 16 buf v (omega (arith, long))).1,
                subst (λ z. z < 2 ^ 32) e (read_u32_be-at 20 buf v (omega (arith, long))).1,
              ))
      ]
    ]
  ]
]

-- A texture of the given kind and size.
pub record IsTexture (kind : PngKind) (width height : ℕ) (buf : Text) : Type 0 where
  pub rest : Text
  pub starts : buf ≡ png_file width height rest
  pub width_fits : width < 2 ^ 32
  pub height_fits : height < 2 ^ 32
  pub allowed : is_allowed kind width height ≡ true

PngResult-cases :
    (r : PngResult) → ((w : ℕ) × (h : ℕ) × (r ≡ valid w h)) ⊎ ((e : PngError) × (r ≡ failed e))
PngResult-cases (valid w h) = inl (w, h, refl)
PngResult-cases (failed e) = inr (e, refl)

validate_png_sound :
    (kind : PngKind) (width height : ℕ) (buf : Text)
    → AreBytes buf
    → validate_png buf kind ≡ valid width height
    → IsTexture kind width height buf
unfolding validate_png
validate_png_sound kind width height buf v h = elim (PngResult-cases (parse_png_header buf)) [
  | inr (e, f) ↦ absurd (let k = rw (f, validate_png) at h in cc)
  | inl (a, b, f) ↦ elim (Bool-cases (is_allowed kind a b)) [
    | inr y ↦ absurd (let k = rw (f, y, validate_png) at h in cc)
    | inl y ↦
        (let k : valid a b ≡ valid width height = rw (f, y, validate_png) at h in
          let w : a ≡ width = cc in
          let e : b ≡ height = cc in
          let (whole, c, d) = parse_png_header_sound buf width height v (f ∙ k) in
          record {
            rest = drop 24 buf;
            starts = whole;
            width_fits = c;
            height_fits = d;
            allowed = rw (← w, ← e) y;
          })
  ]
]

-- A buffer of bytes is accepted as a texture of a kind, with a width and a height, exactly when it
-- begins with the PNG signature, the length 13, "IHDR" and that width and height as four bytes each,
-- highest first, and the kind allows the size. What follows the header is not looked at.
pub validate_png-IsTexture :
    (kind : PngKind) (width height : ℕ) (buf : Text)
    → AreBytes buf
    → (validate_png buf kind ≡ valid width height) ↔ IsTexture kind width height buf
unfolding validate_png
validate_png-IsTexture kind width height buf v = (
  validate_png_sound kind width height buf v,
  λ t.
      rw
        (
          t.starts,
          parse_png_header-png_file width height t.rest t.width_fits t.height_fits,
          t.allowed,
          validate_png,
        )
        refl,
)
