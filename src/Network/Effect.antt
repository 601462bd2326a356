-- ===== src/Network/Effect.antt =====
-- The effect of a handler: it reads and writes the state, and may fail. What was written before a
-- failure stays written, unless it stands in a transaction. `AppError` is that of
-- crates/core/src/error.rs.
use Prim.Native.String.{String}
use mathlib.Core.Bool.{Bool, true, false}
use loontail_minecraft_netwo.Prelude.{ℕ, suc, ◌≡◌, refl, Option, none, some, ◌∷◌, ◌⊎◌, inl, inr}
use loontail_minecraft_netwo.Network.Store.{Net, ServerEvent}

pub data AppError : Type 0 where
  bad_request not_found conflict : String → AppError
  unauthorized forbidden too_many_requests database internal : AppError

pub data Outcome (A : Type 0) : Type 0 where
  done : A → Net → Outcome A
  fail : AppError → Net → Outcome A

abbrev pub M : Type 0 → Type 0
M A = Net → Outcome A

abbrev pub ret : {A : Type 0} → A → M A
ret a s = done a s

abbrev pub bind : {A B : Type 0} → Outcome A → (A → M B) → Outcome B
bind (done a s) f = f a s
bind (fail e s) f = fail e s

infixl 5 ◌>>◌ ◌>>=◌
abbrev pub ◌>>◌ : {B : Type 0} → M (Unit {0}) → M B → M B
◌>>◌ first next s = bind (first s) (λ _. next)

abbrev pub ◌>>=◌ : {A B : Type 0} → M A → (A → M B) → M B
◌>>=◌ first next s = bind (first s) next

abbrev pub raise : {A : Type 0} → AppError → M A
raise e s = fail e s

-- An early return with an error, unless the test passes.
abbrev pub guard : Bool → AppError → M (Unit {0})
guard true e s = done tt s
guard false e s = fail e s

abbrev pub gets : {A : Type 0} → (Net → A) → M A
gets f s = done (f s) s

abbrev pub modify : (Net → Net) → M (Unit {0})
modify f s = done tt (f s)

-- `.ok_or_else(...)?` and `.ok_or(...)?`
abbrev pub or_fail : {A : Type 0} → Option A → AppError → M A
or_fail none e s = fail e s
or_fail (some a) e s = done a s

-- A failure rolls the state back to where the transaction began.
abbrev pub roll_back : {A : Type 0} → Net → Outcome A → Outcome A
roll_back s (done a t) = done a t
roll_back s (fail e t) = fail e s

abbrev pub transaction : {A : Type 0} → M A → M A
transaction m s = roll_back s (m s)

-- A fresh row id.
abbrev pub fresh_id : M ℕ
fresh_id s = done s.next_id (record s { next_id = suc s.next_id })

-- `signaling.send_to`
abbrev pub send_to : ℕ → ServerEvent → M (Unit {0})
send_to user event s = done tt (record s { sent = (user, event) ∷ s.sent })

abbrev pub final : {A : Type 0} → Outcome A → Net
final (done a s) = s
final (fail e s) = s

pub Outcome-cases :
    {A : Type 0} (o : Outcome A)
    → ((a : A) × (t : Net) × (o ≡ done a t)) ⊎ ((e : AppError) × (t : Net) × (o ≡ fail e t))
Outcome-cases (done a t) = inl (a, t, refl)
Outcome-cases (fail e t) = inr (e, t, refl)

pub done_state : {A : Type 0} {a b : A} {s t : Net} → done a s ≡ done b t → s ≡ t
done_state h = cc
