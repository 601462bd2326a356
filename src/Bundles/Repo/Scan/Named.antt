-- ===== src/Bundles/Repo/Scan/Named.antt =====
-- What a walk finds lies at or below the entries that the directory names.
use mathlib.Core.Bool.{Bool, true, false, ◌&&◌, not}
use mathlib.Core.List.{append_assoc, append-nil}
use loontail_minecraft_netwo.Prelude.{
  ℕ, ◌≡◌, refl, sym, ◌∙◌, [], ◌∷◌, ◌++◌, if◌then◌else◌, ◌==◌, All, All-map, All-append, arith,
  Bool-cases, inl, inr,
}
use loontail_minecraft_netwo.Prelude.Text.{bytes_eq, bytes_beq, bytes_beq_iff}
use loontail_minecraft_netwo.Core.Account.{Text}
use loontail_minecraft_netwo.Core.Headers.{is_empty}
use loontail_minecraft_netwo.Core.Identity.{has_byte}
use loontail_minecraft_netwo.Bundles.Paths.{backslash, unified}
use loontail_minecraft_netwo.Bundles.Paths.Contained.{unified-same}
use loontail_minecraft_netwo.Bundles.Store.{Node, file, dir, special, Entries, end, entry}
use loontail_minecraft_netwo.Bundles.Repo.Scan.{ScanEntry, entry_path, walk, walk_node}

abbrev pub is_name : Text → Bool
is_name name = not (is_empty name) && (not (has_byte b'/' name) && not (has_byte backslash name))

abbrev pub has_entry : Text → Entries → Bool
has_entry name end = false
has_entry name (entry other node rest) = if other == name then true else has_entry name rest

-- A directory names each of its entries once, with no separator in the name, and so do the
-- directories below it.
unfoldable mutual
  pub is_plain : Entries → Bool
  is_plain end = true
  is_plain (entry name node rest) =
      is_name name && (not (has_entry name rest) && (is_plain_node node && is_plain rest))

  pub is_plain_node : Node → Bool
  is_plain_node (file size sha modified) = true
  is_plain_node (dir modified entries) = is_plain entries
  is_plain_node special = true

-- What follows the name of an entry in a path: nothing or a path below it.
abbrev IsTail : Text → Type 0
IsTail [] = Unit {0}
IsTail (b ∷ bs) = b ≡ b'/'

abbrev pub Below : Text → ScanEntry → Type 0
Below path e = (tail : Text) × IsTail tail × (e.relative_path ≡ path ++ tail)

name_of_tail :
    (n m r t : Text)
    → has_byte b'/' n ≡ false
    → has_byte b'/' m ≡ false
    → IsTail r
    → IsTail t
    → n ++ r ≡ m ++ t
    → n ≡ m
name_of_tail [] [] r t f g a b h = refl
name_of_tail [] (c ∷ m) [] t f g a b h = absurd (cc)
name_of_tail [] (c ∷ m) (d ∷ r) t f g a b h = absurd (ground (arith, h, a, g))
name_of_tail (c ∷ n) [] r [] f g a b h = absurd (cc)
name_of_tail (c ∷ n) [] r (d ∷ t) f g a b h = absurd (ground (arith, h, b, f))
name_of_tail (c ∷ n) (d ∷ m) r t f g a b h =
    let head : c ≡ d = cc in
    let rest : n ++ r ≡ m ++ t = cc in
    let same = name_of_tail n m r t (ground (arith, f)) (ground (arith, g)) a b rest in
    rw (head, same) refl

append_cancel : (p u v : Text) → p ++ u ≡ p ++ v → u ≡ v
append_cancel [] u v h = h
append_cancel (c ∷ p) u v h = append_cancel p u v (cc)

abbrev pub Among : Text → Entries → ScanEntry → Type 0
Among base entries e =
    (name : Text) × (has_entry name entries ≡ true)
    × (is_name name ≡ true)
    × Below (entry_path base name) e

abbrev lead : Text → Text
lead [] = []
lead (c ∷ base) = (c ∷ base) ++ (b'/' ∷ [])

entry_path-append :
    (base name tail : Text)
    → is_name name ≡ true
    → entry_path base name ++ tail ≡ lead base ++ (name ++ tail)
entry_path-append [] name tail h = rw (unified-same name (ground (arith, h))) refl
entry_path-append (c ∷ base) name tail h = rw (unified-same name (ground (arith, h))) (
    append_assoc (c ∷ base) (b'/' ∷ name) tail
    ∙ sym (append_assoc (c ∷ base) (b'/' ∷ []) (name ++ tail)))

pub is_empty-entry_path :
    (base name : Text) → is_name name ≡ true → is_empty (entry_path base name) ≡ false
is_empty-entry_path [] [] h = absurd (cc)
is_empty-entry_path [] (c ∷ name) h = refl
is_empty-entry_path (c ∷ base) name h = refl

pub sibling :
    (base n m : Text) (e f : ScanEntry)
    → is_name n ≡ true
    → is_name m ≡ true
    → Below (entry_path base n) e
    → Below (entry_path base m) f
    → e.relative_path ≡ f.relative_path
    → n ≡ m
sibling base n m e f g h (r, a, j) (t, b, k) same =
    name_of_tail n m r t (ground (arith, g)) (ground (arith, h)) a b (
      append_cancel (lead base) (n ++ r) (m ++ t)
        (sym (entry_path-append base n r g) ∙ sym j ∙ same ∙ k ∙ entry_path-append base m t h))

-- What lies in a directory is below it, and is not it.
inside_dir :
    (c : ℕ) (path : Text) (entries : Entries) (e : ScanEntry)
    → Among (c ∷ path) entries e
    → Below (c ∷ path) e
inside_dir c path entries e (name, i, h, (t, a, j)) =
    (b'/' ∷ (unified name ++ t), refl, j ∙ append_assoc (c ∷ path) (b'/' ∷ unified name) t)

pub not_dir :
    (c : ℕ) (path : Text) (entries : Entries) (e : ScanEntry)
    → Among (c ∷ path) entries e
    → bytes_beq e.relative_path (c ∷ path) ≡ false
not_dir c path entries e (name, i, h, (t, a, j)) =
    elim (Bool-cases (bytes_beq e.relative_path (c ∷ path))) [
      | inr n ↦ n
      | inl y ↦
          (let same : e.relative_path ≡ c ∷ path =
              ground (arith, y, bytes_beq_iff e.relative_path (c ∷ path)) in
            let k : b'/' ∷ (unified name ++ t) ≡ [] =
              append_cancel (c ∷ path) (b'/' ∷ (unified name ++ t)) [] (
                sym (append_assoc (c ∷ path) (b'/' ∷ unified name) t)
                ∙ sym j
                ∙ same
                ∙ sym (append-nil (c ∷ path))) in
            absurd (cc))
    ]

mutual
  unfolding is_plain is_plain_node walk walk_node

  pub walk-Among :
      (base : Text) (entries : Entries)
      → is_plain entries ≡ true
      → All (Among base entries) (walk base entries)
  walk-Among base end h = tt
  walk-Among base (entry name node rest) h =
      let plain : is_name name ≡ true = ground (arith, h) in
      rw (is_empty-entry_path base name plain) (
        All-append (Among base (entry name node rest)) (walk_node (entry_path base name) node)
          (walk base rest)
          (All-map (Below (entry_path base name)) (Among base (entry name node rest))
            (walk_node (entry_path base name) node)
            (λ e b. (name, ground (arith, bytes_beq_iff name name), plain, b))
            (walk_node-Below (entry_path base name) node (is_empty-entry_path base name plain)
              (ground (arith, h))))
          (All-map (Among base rest) (Among base (entry name node rest)) (walk base rest)
            (λ e b. (b.0, ground (arith, b.1), b.2, b.3))
            (walk-Among base rest (ground (arith, h)))))

  pub walk_node-Below :
      (path : Text) (node : Node)
      → is_empty path ≡ false
      → is_plain_node node ≡ true
      → All (Below path) (walk_node path node)
  walk_node-Below path (file size sha modified) i h = (([], tt, sym (append-nil path)), tt)
  walk_node-Below [] (dir modified entries) i h = absurd (cc)
  walk_node-Below (c ∷ path) (dir modified entries) i h = (
    ([], tt, sym (append-nil (c ∷ path))),
    All-map (Among (c ∷ path) entries) (Below (c ∷ path)) (walk (c ∷ path) entries)
        (inside_dir c path entries) (walk-Among (c ∷ path) entries h),
  )
  walk_node-Below path special i h = tt
