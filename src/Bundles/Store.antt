-- ===== src/Bundles/Store.antt =====
-- The rows of crates/bundles/src/models.rs and migrations/0007_bundles.sql, the file system as the
-- handlers call it, and how a handler runs. A UUID and a time are numbers.
use mathlib.Core.Bool.{Bool, true, false}
use loontail_minecraft_netwo.Prelude.{ℕ, Option, none, some, List}
use loontail_minecraft_netwo.Prelude.Int.{ℤ}
use loontail_minecraft_netwo.Network.Effect.{AppError, internal}
use loontail_minecraft_netwo.Core.Account.{Text}
use loontail_minecraft_netwo.Bundles.Manifest.{BundleArtifact, Manifest}

pub data BundleStatus : Type 0 where
  draft processing ready failed : BundleStatus

pub record Bundle : Type 0 where
  pub id : ℕ
  pub slug : Text
  pub name : Text
  pub description : Option Text
  pub version : Option Text
  pub status : BundleStatus
  pub files_count : ℕ
  pub total_size : ℕ
  pub processing_error : Option AppError
  pub last_generated_at : Option ℕ

-- A directory as it lies on the disk, its entries in the order of their names; a file with the digest
-- of its content.
mutual
  pub data Node : Type 0 where
    file : ℤ → Text → Option ℕ → Node
    dir : Option ℕ → Entries → Node
    special : Node

  pub data Entries : Type 0 where
    end : Entries
    entry : Text → Node → Entries → Entries

-- The file system below the storage root: a build's files are named by its slug and a relative
-- path. A call that can fail gives the disk that it leaves and whether it succeeded; `files` fails
-- where an entry of `files/` cannot be read.
pub record FileSystem (D : Type 0) : Type 0 where
  pub exists : Text → Text → D → Bool
  pub is_file : Text → Text → D → Bool
  pub create_dir_all : Text → Text → D → Bool × D
  pub rename : Text → Text → Text → D → Bool × D
  pub unlink : Text → BundleArtifact → D → D
  pub remove_build : Text → D → D
  pub place_upload : Text → Text → D → Bool × D
  pub hash_file : Text → Text → D → Option Text
  pub modified_at : Text → Text → D → Option ℕ
  pub unpack : Text → D → Option AppError × D
  pub files : Text → D → Option Entries
  pub write_manifest : Text → Manifest → D → Bool × D

-- What the handlers take from outside: the disk, the configured prefix, the order of the database's
-- texts, `str::trim` and the clock.
pub record Env (D : Type 0) : Type 0 where
  pub fs : FileSystem D
  pub public_url : Text
  pub by_path : List BundleArtifact → List BundleArtifact
  pub trim : Text → Text
  pub now : ℕ

-- The database and the disk.
pub record Registry (D : Type 0) : Type 0 where
  pub bundles : List Bundle
  pub artifacts : List BundleArtifact
  pub next_id : ℕ
  pub disk : D

pub data Outcome (D : Type 0) (A : Type 0) : Type 0 where
  done : A → Registry D → Outcome D A
  fail : AppError → Registry D → Outcome D A

abbrev pub M : Type 0 → Type 0 → Type 0
M D A = Registry D → Outcome D A

abbrev pub bind : {D A B : Type 0} → Outcome D A → (A → M D B) → Outcome D B
bind (done a s) f = f a s
bind (fail e s) f = fail e s

infixl 5 ◌>>◌ ◌>>=◌
abbrev pub ◌>>◌ : {D B : Type 0} → M D (Unit {0}) → M D B → M D B
◌>>◌ first next s = bind (first s) (λ _. next)

abbrev pub ◌>>=◌ : {D A B : Type 0} → M D A → (A → M D B) → M D B
◌>>=◌ first next s = bind (first s) next

abbrev pub ret : {D A : Type 0} → A → M D A
ret a s = done a s

abbrev pub raise : {D A : Type 0} → AppError → M D A
raise e s = fail e s

abbrev pub guard : {D : Type 0} → Bool → AppError → M D (Unit {0})
guard true e s = done tt s
guard false e s = fail e s

abbrev pub gets : {D A : Type 0} → (Registry D → A) → M D A
gets f s = done (f s) s

abbrev pub modify : {D : Type 0} → (Registry D → Registry D) → M D (Unit {0})
modify f s = done tt (f s)

abbrev pub or_fail : {D A : Type 0} → Option A → AppError → M D A
or_fail none e s = fail e s
or_fail (some a) e s = done a s

-- A failed transaction restores the rows, and not the disk.
abbrev pub roll_back : {D A : Type 0} → Registry D → Outcome D A → Outcome D A
roll_back s (done a t) = done a t
roll_back s (fail e t) = fail e (record t { bundles = s.bundles; artifacts = s.artifacts })

abbrev pub transaction : {D A : Type 0} → M D A → M D A
transaction m s = roll_back s (m s)

-- A call of the file system.
abbrev pub on_disk : {D : Type 0} → (D → Bool × D) → M D (Unit {0})
on_disk f s = guard (f s.disk).0 internal (record s { disk = (f s.disk).1 })

abbrev pub final : {D A : Type 0} → Outcome D A → Registry D
final (done a s) = s
final (fail e s) = s
