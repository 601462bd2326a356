-- ===== src/Bundles/Repo/Scan/Distinct.antt =====
-- The walk of a directory gives no path twice.
use mathlib.Core.Bool.{Bool, true, false}
use loontail_minecraft_netwo.Prelude.{
  ◌≡◌, refl, ap, sym, List, [], ◌∷◌, ◌++◌, any, ◌==◌, All, All-map, arith, Bool-cases, inl, inr,
}
use loontail_minecraft_netwo.Prelude.Text.{bytes_eq, bytes_beq, bytes_beq_iff}
use loontail_minecraft_netwo.Core.Account.{Text}
use loontail_minecraft_netwo.Core.Headers.{is_empty}
use loontail_minecraft_netwo.Bundles.Store.{Node, file, dir, special, Entries, end, entry}
use loontail_minecraft_netwo.Bundles.Repo.Scan.{
  ScanEntry, is_for, entry_path, walk, walk_node, scan_directory, repeats,
}
use loontail_minecraft_netwo.Bundles.Repo.Scan.Named.{
  is_name, has_entry, is_plain, is_plain_node, Below, Among, is_empty-entry_path, sibling, not_dir,
  walk-Among, walk_node-Below,
}

any-append-false :
    (p : ScanEntry → Bool) (xs ys : List ScanEntry)
    → any p xs ≡ false
    → any p ys ≡ false
    → any p (xs ++ ys) ≡ false
unfolding any
any-append-false p [] ys h k = k
any-append-false p (x ∷ xs) ys h k = ground (arith, any-append-false p xs ys, h, k)

repeats-append :
    (xs ys : List ScanEntry)
    → repeats xs ≡ false
    → repeats ys ≡ false
    → All (λ e. any (is_for e) ys ≡ false) xs
    → repeats (xs ++ ys) ≡ false
unfolding repeats
repeats-append [] ys h k a = k
repeats-append (x ∷ xs) ys h k a =
    let none_here = any-append-false (is_for x) xs ys (ground (arith, h)) a.0 in
    rw none_here (repeats-append xs ys (ground (arith, h)) k a.1)

any-apart :
    (p : ScanEntry → Bool) (es : List ScanEntry) → All (λ e. p e ≡ false) es → any p es ≡ false
unfolding any
any-apart p [] a = refl
any-apart p (e ∷ es) a = ground (arith, any-apart p es a.1, a.0)

-- What lies at an entry is apart from what lies at the entries after it.
apart :
    (base name : Text) (rest : Entries) (e f : ScanEntry)
    → is_name name ≡ true
    → has_entry name rest ≡ false
    → Below (entry_path base name) e
    → Among base rest f
    → is_for e f ≡ false
apart base name rest e f h free b (other, i, k, c) = elim (Bool-cases (is_for e f)) [
  | inr n ↦ n
  | inl y ↦
      (let same : f.relative_path ≡ e.relative_path =
          ground (arith, y, bytes_beq_iff f.relative_path e.relative_path) in
        let one = sibling base name other e f h k b c (sym same) in
        absurd (let z = ap (λ n. has_entry n rest) one in cc))
]

mutual
  unfolding is_plain is_plain_node walk walk_node repeats any

  repeats-walk :
      (base : Text) (entries : Entries)
      → is_plain entries ≡ true
      → repeats (walk base entries) ≡ false
  repeats-walk base end h = refl
  repeats-walk base (entry name node rest) h =
      let plain : is_name name ≡ true = ground (arith, h) in
      rw (is_empty-entry_path base name plain) (
        repeats-append (walk_node (entry_path base name) node) (walk base rest)
          (repeats-walk_node (entry_path base name) node (is_empty-entry_path base name plain)
            (ground (arith, h)))
          (repeats-walk base rest (ground (arith, h)))
          (All-map (Below (entry_path base name)) (λ e. any (is_for e) (walk base rest) ≡ false)
            (walk_node (entry_path base name) node)
            (λ e b. any-apart (is_for e) (walk base rest) (
              All-map (Among base rest) (λ f. is_for e f ≡ false) (walk base rest)
                (λ f c. apart base name rest e f plain (ground (arith, h)) b c)
                (walk-Among base rest (ground (arith, h)))))
            (walk_node-Below (entry_path base name) node (is_empty-entry_path base name plain)
              (ground (arith, h)))))

  repeats-walk_node :
      (path : Text) (node : Node)
      → is_empty path ≡ false
      → is_plain_node node ≡ true
      → repeats (walk_node path node) ≡ false
  repeats-walk_node path (file size sha modified) i h = refl
  repeats-walk_node [] (dir modified entries) i h = absurd (cc)
  repeats-walk_node (c ∷ path) (dir modified entries) i h =
      let below =
        any-apart (λ f. f.relative_path == (c ∷ path)) (walk (c ∷ path) entries)
          (All-map (Among (c ∷ path) entries) (λ f. bytes_beq f.relative_path (c ∷ path) ≡ false)
            (walk (c ∷ path) entries) (not_dir c path entries) (walk-Among (c ∷ path) entries h)) in
      let rest = repeats-walk (c ∷ path) entries h in ground (arith, below, rest)
  repeats-walk_node path special i h = refl

pub scan_directory-distinct :
    (entries : Entries) → is_plain entries ≡ true → repeats (scan_directory entries) ≡ false
scan_directory-distinct entries h = repeats-walk [] entries h
