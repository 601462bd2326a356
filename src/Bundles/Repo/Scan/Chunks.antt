-- ===== src/Bundles/Repo/Scan/Chunks.antt =====
-- The chunks of a scan write what one statement for the whole scan would.
use mathlib.Core.Bool.{Bool, false}
use loontail_minecraft_netwo.Prelude.{
  ℕ, zero, suc, ◌≡◌, refl, ap, ◌∙◌, ◌≤◌, List, [], ◌∷◌, any, length, take, drop, arith,
}
use loontail_minecraft_netwo.Bundles.Store.{Registry, done}
use loontail_minecraft_netwo.Bundles.Repo.Scan.{
  ScanEntry, is_for, upsert_row, upsert_rows, repeats, upsert_artifact_chunk, upsert_chunks, chunks,
}

any-take :
    (p : ScanEntry → Bool) (n : ℕ) (es : List ScanEntry)
    → any p es ≡ false
    → any p (take n es) ≡ false
unfolding any
any-take p zero es h = refl
any-take p (suc n) [] h = refl
any-take p (suc n) (e ∷ es) h = ground (arith, any-take p n es, h)

repeats-take : (n : ℕ) (es : List ScanEntry) → repeats es ≡ false → repeats (take n es) ≡ false
unfolding repeats
repeats-take zero es h = refl
repeats-take (suc n) [] h = refl
repeats-take (suc n) (e ∷ es) h =
    let free = any-take (is_for e) n es (ground (arith, h)) in
    rw free (repeats-take n es (ground (arith, h)))

repeats-drop : (n : ℕ) (es : List ScanEntry) → repeats es ≡ false → repeats (drop n es) ≡ false
unfolding repeats
repeats-drop zero es h = h
repeats-drop (suc n) [] h = refl
repeats-drop (suc n) (e ∷ es) h = repeats-drop n es (ground (arith, h))

length-drop-le : (n : ℕ) (es : List ScanEntry) → length (drop n es) ≤ length es
length-drop-le zero es = omega arith
length-drop-le (suc n) [] = omega arith
length-drop-le (suc n) (e ∷ es) = omega (arith, length-drop-le n es)

module _ {D : Type 0} where
  upsert_rows-split :
      (bundle n : ℕ) (es : List ScanEntry) (s : Registry D)
      → upsert_rows bundle (drop n es) (upsert_rows bundle (take n es) s) ≡ upsert_rows bundle es s
  upsert_rows-split bundle zero es s = refl
  upsert_rows-split bundle (suc n) [] s = refl
  upsert_rows-split bundle (suc n) (e ∷ es) s =
      upsert_rows-split bundle n es (upsert_row bundle e s)

  pub upsert_chunks-all :
      (bundle fuel n : ℕ) (es : List ScanEntry) (s : Registry D)
      → length es ≤ fuel
      → repeats es ≡ false
      → upsert_chunks bundle (chunks fuel (suc n) es) s ≡ done tt (upsert_rows bundle es s)
  unfolding upsert_chunks upsert_artifact_chunk chunks
  upsert_chunks-all bundle zero n [] s l r = refl
  upsert_chunks-all bundle zero n (e ∷ es) s l r = absurd (omega (arith, l))
  upsert_chunks-all bundle (suc fuel) n [] s l r = refl
  upsert_chunks-all bundle (suc fuel) n (e ∷ es) s l r =
      let first = repeats-take (suc n) (e ∷ es) r in
      let rest =
        upsert_chunks-all bundle fuel n (drop n es) (upsert_rows bundle (take (suc n) (e ∷ es)) s)
          (omega (arith, length-drop-le n es, l)) (repeats-drop (suc n) (e ∷ es) r) in
      rw first (rest ∙ ap (done tt) (upsert_rows-split bundle (suc n) (e ∷ es) s))
