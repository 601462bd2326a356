-- ===== src/Yggdrasil/Png/Bytes.antt =====
-- Numbers of four bytes, and what stands at an offset of a buffer.
use mathlib.Core.Bool.{true}
use loontail_minecraft_netwo.Prelude.{
  ℕ, ◌+◌, ◌*◌, ◌/◌, ◌%◌, ◌^◌, ◌<◌, ◌≤◌, ◌≡◌, zero, suc, ap, sym, ◌∙◌, All, all, refl, [], ◌∷◌, ◌++◌,
  ltb, length, take, drop, arith,
}
use loontail_minecraft_netwo.Prelude.Text.{bytes_eq}
use loontail_minecraft_netwo.Yggdrasil.Uuid.{Text}
use loontail_minecraft_netwo.Yggdrasil.Png.{from_be_bytes, read_u32_be}

-- `u32::to_be_bytes`
abbrev pub to_be_bytes : ℕ → Text
to_be_bytes n = n / 16777216 % 256 ∷ n / 65536 % 256 ∷ n / 256 % 256 ∷ n % 256 ∷ []

pub from_be_bytes-to :
    (n : ℕ) (rest : Text) → n < 2 ^ 32 → from_be_bytes (to_be_bytes n ++ rest) ≡ n
from_be_bytes-to n rest h = omega (arith, h)

pub take-drop : (n : ℕ) (xs : Text) → take n xs ++ drop n xs ≡ xs
take-drop zero xs = refl
take-drop (suc n) [] = refl
take-drop (suc n) (x ∷ xs) = ap (λ z. x ∷ z) (take-drop n xs)

drop-nil : (n : ℕ) → drop {A = ℕ} n [] ≡ []
drop-nil zero = refl
drop-nil (suc n) = refl

pub drop-drop : (n m k : ℕ) (xs : Text) → k ≡ n + m → drop m (drop n xs) ≡ drop k xs
drop-drop zero m k xs e = (let same : k ≡ m = omega (arith, e) in rw same refl)
drop-drop (suc n) m k [] e = drop-nil m ∙ sym (drop-nil k)
drop-drop (suc n) m zero (x ∷ xs) e = absurd (omega (arith, e))
drop-drop (suc n) m (suc k) (x ∷ xs) e = drop-drop n m k xs (omega (arith, e))

drop-length : (n k : ℕ) (xs : Text) → n + k ≤ length xs → k ≤ length (drop n xs)
drop-length zero k xs h = omega (arith, h)
drop-length (suc n) k [] h = absurd (omega (arith, h))
drop-length (suc n) k (x ∷ xs) h = drop-length n k xs (omega (arith, h))

abbrev pub AreBytes : Text → Type 0
AreBytes buf = All (λ b. b < 256) buf

drop-AreBytes : (n : ℕ) (xs : Text) → AreBytes xs → AreBytes (drop n xs)
drop-AreBytes zero xs a = a
drop-AreBytes (suc n) [] a = tt
drop-AreBytes (suc n) (x ∷ xs) a = drop-AreBytes n xs a.1

to_be_bytes-from :
    (bs : Text)
    → AreBytes bs
    → 4 ≤ length bs
    → (bs ≡ to_be_bytes (from_be_bytes bs) ++ drop 4 bs) × (from_be_bytes bs < 2 ^ 32)
to_be_bytes-from (a ∷ b ∷ c ∷ d ∷ bs) v l =
    let n = ((a * 256 + b) * 256 + c) * 256 + d in
    let first : n / 16777216 % 256 ≡ a = omega (arith, v.0, v.1.0, v.1.1.0, v.1.1.1.0) in
    let second : n / 65536 % 256 ≡ b = omega (arith, v.0, v.1.0, v.1.1.0, v.1.1.1.0) in
    let third : n / 256 % 256 ≡ c = omega (arith, v.0, v.1.0, v.1.1.0, v.1.1.1.0) in
    let fourth : n % 256 ≡ d = omega (arith, v.0, v.1.0, v.1.1.0, v.1.1.1.0) in
    (rw (first, second, third, fourth) refl, omega (arith, v.0, v.1.0, v.1.1.0, v.1.1.1.0))
to_be_bytes-from _ v l = absurd (omega (arith, l))

-- Four bytes that stand at an offset are those of the number that is read there.
pub read_u32_be-at :
    (n : ℕ) (buf : Text)
    → AreBytes buf
    → n + 4 ≤ length buf
    → (drop n buf ≡ to_be_bytes (read_u32_be buf n) ++ drop (n + 4) buf)
      × (read_u32_be buf n < 2 ^ 32)
read_u32_be-at n buf v l =
    let (e, b) = to_be_bytes-from (drop n buf) (drop-AreBytes n buf v) (drop-length n 4 buf l) in
    (e ∙ ap (λ z. to_be_bytes (read_u32_be buf n) ++ z) (drop-drop n 4 (n + 4) buf refl), b)

pub all-AreBytes : (buf : Text) → all (λ b. ltb b 256) buf ≡ true → AreBytes buf
unfolding all
all-AreBytes [] h = tt
all-AreBytes (b ∷ bs) h = (ground (arith, h), all-AreBytes bs (ground (arith, h)))
