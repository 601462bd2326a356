-- ===== src/Bundles/Tidy.antt =====
-- The invariant of the artifact rows, and the effects that keep it.
pub mod Rows
pub mod Batches
pub mod Handlers
pub mod Calls
pub mod Rescan
use Prim.Native.String.{String}
use mathlib.Core.Bool.{Bool, true, false}
use loontail_minecraft_netwo.Prelude.{
  ℕ, ◌≡◌, refl, ◌≤◌, ◌<◌, Option, none, some, List, [], ◌∷◌, All, All-map, find, arith,
  if◌then◌else◌,
}
use loontail_minecraft_netwo.Network.Effect.{AppError, database, not_found}
use loontail_minecraft_netwo.Core.Account.{Text}
use loontail_minecraft_netwo.Bundles.Paths.{split_relative_path}
use loontail_minecraft_netwo.Bundles.Manifest.{BundleArtifact}
use loontail_minecraft_netwo.Bundles.Store.{
  Bundle, Env, Registry, Outcome, done, fail, M, bind, ◌>>◌, ◌>>=◌, ret, raise, guard, gets, modify,
  or_fail, transaction, roll_back, on_disk, final,
}
use loontail_minecraft_netwo.Bundles.Repo.{
  is_indexed, is_bundle, has_slug, change_bundle, fetch_bundle, require_by_slug, list_artifacts,
}
use loontail_minecraft_netwo.Bundles.Repo.Once.{Once}

-- The columns that are computed from the path.
abbrev pub IsDerived : BundleArtifact → Type 0
IsDerived a =
    (a.name ≡ (split_relative_path a.relative_path).0)
    × (a.category ≡ (split_relative_path a.relative_path).1)

-- Ids are distinct and used up, places unique, and the derived columns agree with the paths.
pub record IsTidy (next : ℕ) (rows : List BundleArtifact) : Type 0 where
  pub once : Once rows
  pub used : All (λ a. a.id < next) rows
  pub indexed : is_indexed rows ≡ true
  pub derived : All IsDerived rows

module _ {D : Type 0} where
  -- What a call leaves is tidy, whatever it answers.
  pub record Keeps {A : Type 0} (m : M D A) : Type 0 where
    pub tidy :
        (s : Registry D)
        → IsTidy s.next_id s.artifacts
        → IsTidy (final (m s)).next_id (final (m s)).artifacts
    pub later : (s : Registry D) → s.next_id ≤ (final (m s)).next_id

  module _ {A B : Type 0} where
    pub bind-Keeps :
        (m : M D A) (f : A → M D B) → Keeps m → ((a : A) → Keeps (f a)) → Keeps (m >>= f)
    bind-Keeps m f k l = record {
      tidy = λ s v.
          (elim (m s)
              as (λ o.
                IsTidy (final o).next_id (final o).artifacts
                → IsTidy (final (bind o f)).next_id (final (bind o f)).artifacts) [
                  | done a t ↦ λ w. (l a).tidy t w
                  | fail e t ↦ λ w. w
                ])
            (k.tidy s v);
      later = λ s.
          (elim (m s)
              as (λ o. s.next_id ≤ (final o).next_id → s.next_id ≤ (final (bind o f)).next_id) [
                | done a t ↦ λ w. omega (arith, (l a).later t)
                | fail e t ↦ λ w. w
              ])
            (k.later s);
    }

  pub then-Keeps :
      {B : Type 0} (m : M D (Unit {0})) (n : M D B) → Keeps m → Keeps n → Keeps (m >> n)
  then-Keeps m n k l = bind-Keeps m (λ _. n) k (λ _. l)

  -- A call that leaves the rows and the supply of ids alone.
  pub still-Keeps :
      {A : Type 0} (m : M D A)
      → ((s : Registry D)
          → ((final (m s)).artifacts ≡ s.artifacts) × ((final (m s)).next_id ≡ s.next_id))
      → Keeps m
  still-Keeps m h = record {
    tidy = λ s v. rw ((h s).0, (h s).1) v;
    later = λ s. omega (arith, (h s).1);
  }

  pub ret-Keeps : {A : Type 0} (a : A) → Keeps (ret {D = D} a)
  ret-Keeps a = still-Keeps (ret a) (λ s. (refl, refl))

  pub raise-Keeps : {A : Type 0} (e : AppError) → Keeps (raise {D = D} {A = A} e)
  raise-Keeps e = still-Keeps (raise e) (λ s. (refl, refl))

  pub gets-Keeps : {A : Type 0} (f : Registry D → A) → Keeps (gets f)
  gets-Keeps f = still-Keeps (gets f) (λ s. (refl, refl))

  pub guard-Keeps : (b : Bool) (e : AppError) → Keeps (guard {D = D} b e)
  guard-Keeps true e = still-Keeps (guard true e) (λ s. (refl, refl))
  guard-Keeps false e = still-Keeps (guard false e) (λ s. (refl, refl))

  pub or_fail-Keeps : {A : Type 0} (o : Option A) (e : AppError) → Keeps (or_fail {D = D} o e)
  or_fail-Keeps none e = still-Keeps (or_fail none e) (λ s. (refl, refl))
  or_fail-Keeps (some a) e = still-Keeps (or_fail (some a) e) (λ s. (refl, refl))

  pub on_disk-Keeps : (f : D → Bool × D) → Keeps (on_disk f)
  on_disk-Keeps f = still-Keeps (on_disk f) (λ s. ground arith)

  pub if-Keeps :
      {A : Type 0} (b : Bool) (m n : M D A) → Keeps m → Keeps n → Keeps (if b then m else n)
  if-Keeps true m n k l = k
  if-Keeps false m n k l = l

  pub transaction-Keeps : {A : Type 0} (m : M D A) → Keeps m → Keeps (transaction m)
  transaction-Keeps m k = record {
    tidy = λ s v.
        (elim (m s)
            as (λ o.
              IsTidy (final o).next_id (final o).artifacts
              → s.next_id ≤ (final o).next_id
              → IsTidy (final (roll_back s o)).next_id (final (roll_back s o)).artifacts) [
                | done a t ↦ λ w l. w
                | fail e t ↦ λ w l. record {
                  once = v.once;
                  used =
                      All-map (λ a. a.id < s.next_id) (λ a. a.id < t.next_id) s.artifacts
                        (λ a h. omega (arith, h, l)) v.used;
                  indexed = v.indexed;
                  derived = v.derived;
                }
              ])
          (k.tidy s v) (k.later s);
    later = λ s.
        (elim (m s)
            as (λ o. s.next_id ≤ (final o).next_id → s.next_id ≤ (final (roll_back s o)).next_id) [
              | done a t ↦ λ w. w
              | fail e t ↦ λ w. w
            ])
          (k.later s);
  }

  pub change_bundle-Keeps : (id : ℕ) (f : Bundle → Bundle) → Keeps (change_bundle {D = D} id f)
  change_bundle-Keeps id f = still-Keeps (change_bundle id f) (λ s. (refl, refl))

  -- `fetch_one` and `ok_or_else` of a query.
  reads-Keeps :
      {A : Type 0} (f : Registry D → Option A) (e : AppError) → Keeps (λ s. or_fail (f s) e s)
  reads-Keeps f e =
      still-Keeps (λ s. or_fail (f s) e s)
        (λ s.
          (elim (f s)
            as (λ o.
              ((final (or_fail {D = D} o e s)).artifacts ≡ s.artifacts)
              × ((final (or_fail {D = D} o e s)).next_id ≡ s.next_id)) [
                | none ↦ (refl, refl)
                | some a ↦ (refl, refl)
              ]))

  pub fetch_bundle-Keeps : (id : ℕ) → Keeps (fetch_bundle {D = D} id)
  fetch_bundle-Keeps id = reads-Keeps (λ s. find (is_bundle id) s.bundles) database

  pub require_by_slug-Keeps : (slug : Text) → Keeps (require_by_slug {D = D} slug)
  require_by_slug-Keeps slug =
      reads-Keeps (λ s. find (has_slug slug) s.bundles) (not_found "build not found")

  pub list_artifacts-Keeps : (env : Env D) (id : ℕ) → Keeps (list_artifacts env id)
  list_artifacts-Keeps env id = still-Keeps (list_artifacts env id) (λ s. (refl, refl))

  pub on_disk_only-Keeps : (f : Registry D → D) → Keeps (modify (λ s. record s { disk = f s }))
  on_disk_only-Keeps f = still-Keeps (modify (λ s. record s { disk = f s })) (λ s. (refl, refl))

pub ruleset keeping = (
  bind-Keeps, then-Keeps, gets-Keeps, guard-Keeps, or_fail-Keeps, raise-Keeps, ret-Keeps, if-Keeps,
  on_disk-Keeps, transaction-Keeps, change_bundle-Keeps, fetch_bundle-Keeps, require_by_slug-Keeps,
  list_artifacts-Keeps,
)
