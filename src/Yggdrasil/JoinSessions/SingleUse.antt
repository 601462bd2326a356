-- ===== src/Yggdrasil/JoinSessions/SingleUse.antt =====
-- The store of join sessions against its specification: the announcement of each server id.
use Prim.Native.String.{String}
use mathlib.Core.Bool.{not}
use mathlib.Core.Path.{ap₂}
use loontail_minecraft_netwo.Prelude.{
  ℕ, ◌≡◌, ◌≤◌, refl, ap, sym, ◌∙◌, Option, none, some, List, [], ◌∷◌, if◌then◌else◌, arith,
  Option-cases, Bool-cases, inl, inr, ◌==◌, ==-sound,
}
use loontail_minecraft_netwo.Prelude.Map.{
  lookup, Distinct, lookup-insert, lookup-remove, lookup-retain, insert-Distinct, remove-Distinct,
  retain-Distinct,
}
use loontail_minecraft_netwo.Prelude.Text.{string_eq}
use loontail_minecraft_netwo.Yggdrasil.JoinSessions.{
  JoinSession, is_expired, Sessions, sweep, announced, record_join, take_join,
}

pub data Call : Type 0 where
  joins : (now : ℕ) (server_id : String) (user : ℕ) (ip : Option String) → Call
  claims : (now : ℕ) (server_id : String) → Call

-- The answers to the claims.
unfoldable pub run : List Call → Sessions → List (Option JoinSession)
run [] m = []
run (joins now id user ip ∷ cs) m = run cs (record_join now id user ip m)
run (claims now id ∷ cs) m = (take_join now id m).0 ∷ run cs (take_join now id m).1

-- A session that has not expired.
abbrev pub live : ℕ → Option JoinSession → Option JoinSession
live now none = none
live now (some s) = if is_expired now s then none else some s

abbrev pub View : Type 0
View = String → Option JoinSession

abbrev pub set_view : String → Option JoinSession → View → View
set_view id o view other = if id == other then o else view other

-- The specification: an announcement replaces the last one, and a claim uses it up.
unfoldable pub run_view : List Call → View → List (Option JoinSession)
run_view [] view = []
run_view (joins now id user ip ∷ cs) view =
    run_view cs (set_view id (some (announced now user ip)) view)
run_view (claims now id ∷ cs) view = live now (view id) ∷ run_view cs (set_view id none view)

-- The clock does not go back.
abbrev pub InOrder : ℕ → List Call → Type 0
InOrder t [] = Unit {0}
InOrder t (joins now id user ip ∷ cs) = (t ≤ now) × InOrder now cs
InOrder t (claims now id ∷ cs) = (t ≤ now) × InOrder now cs

abbrev pub Agrees : ℕ → Sessions → View → Type 0
Agrees t m view = (id : String) → live t (lookup id m) ≡ live t (view id)

live-live : (t now : ℕ) (o : Option JoinSession) → t ≤ now → live now (live t o) ≡ live now o
live-live t now none h = refl
live-live t now (some s) h = ground arith

live_twice : (now : ℕ) (o : Option JoinSession) → live now (live now o) ≡ live now o
live_twice now none = refl
live_twice now (some s) = ground arith

Agrees-later :
    (t now : ℕ) (m : Sessions) (view : View) → t ≤ now → Agrees t m view → Agrees now m view
Agrees-later t now m view h a id =
    sym (live-live t now (lookup id m) h) ∙ ap (live now) (a id) ∙ live-live t now (view id) h

kept-live :
    (now : ℕ) (o : Option JoinSession)
    → elim o as (λ x. Option JoinSession) [
      | none ↦ none
      | some s ↦ if not (is_expired now s) then some s else none
    ]
      ≡ live now o
kept-live now none = refl
kept-live now (some s) = ground arith

pub lookup-sweep :
    (now : ℕ) (id : String) (m : Sessions)
    → Distinct m
    → lookup id (sweep now m) ≡ live now (lookup id m)
lookup-sweep now id m d =
    lookup-retain (λ j s. not (is_expired now s)) id m d ∙ kept-live now (lookup id m)

record_join-Agrees :
    (t now : ℕ) (id : String) (user : ℕ) (ip : Option String) (m : Sessions) (view : View)
    → t ≤ now
    → Distinct m
    → Agrees t m view
    → Agrees now (record_join now id user ip m) (set_view id (some (announced now user ip)) view)
unfolding record_join
record_join-Agrees t now id user ip m view h d a other =
    rw (lookup-insert id other (announced now user ip) (sweep now m))
      (elim (Bool-cases (id == other)) [
        | inl s ↦ rw s refl
        | inr n ↦ rw n (
            ap (live now) (lookup-sweep now other m d)
            ∙ live_twice now (lookup other m)
            ∙ Agrees-later t now m view h a other)
      ])

-- What a claim answers and leaves, in one form for both of its branches.
pub take_join-parts :
    (now : ℕ) (id other : String) (m : Sessions)
    → Distinct m
    → ((take_join now id m).0 ≡ live now (lookup id m))
      × (lookup other (take_join now id m).1
          ≡ (if id == other then none else live now (lookup other m)))
      × Distinct (take_join now id m).1
unfolding take_join
take_join-parts now id other m d =
    let swept = sweep now m in
    let d' = retain-Distinct (λ j s. not (is_expired now s)) m d in
    let here = lookup-sweep now id m d in
    elim (Option-cases (lookup id swept)) [
      | inl e ↦
          let gone : live now (lookup id m) ≡ none = sym here ∙ e in
          rw (e, gone, take_join)
            (
              refl,
              elim (Bool-cases (id == other)) [
                | inl s ↦ rw s (ap (λ j. lookup j swept) (sym (==-sound id other s)) ∙ e)
                | inr n ↦ rw n (lookup-sweep now other m d)
              ],
              d',
            )
      | inr (s, e) ↦
          let found : live now (lookup id m) ≡ some s = sym here ∙ e in
          rw (e, take_join)
            (
              ap (live now) (sym found) ∙ live_twice now (lookup id m),
              lookup-remove id other swept d'
                  ∙ ap (λ o. if id == other then none else o) (lookup-sweep now other m d),
              remove-Distinct id swept d',
            )
    ]

take_join-Agrees :
    (t now : ℕ) (id : String) (m : Sessions) (view : View)
    → t ≤ now
    → Distinct m
    → Agrees t m view
    → Agrees now (take_join now id m).1 (set_view id none view)
take_join-Agrees t now id m view h d a other =
    let later = Agrees-later t now m view h a other in
    rw ((take_join-parts now id other m d).1) (elim (Bool-cases (id == other)) [
      | inl s ↦ rw s refl
      | inr n ↦ rw n (live_twice now (lookup other m) ∙ later)
    ])

run-eq :
    (cs : List Call) (t : ℕ) (m : Sessions) (view : View)
    → InOrder t cs
    → Distinct m
    → Agrees t m view
    → run cs m ≡ run_view cs view
unfolding run run_view
run-eq [] t m view o d a = refl
run-eq (joins now id user ip ∷ cs) t m view o d a =
    run-eq cs now _ _ o.1
      (unfold record_join in
        insert-Distinct id (announced now user ip) (sweep now m)
          (retain-Distinct (λ j s. not (is_expired now s)) m d))
      (record_join-Agrees t now id user ip m view o.0 d a)
run-eq (claims now id ∷ cs) t m view o d a =
    let (answer, found, d') = take_join-parts now id id m d in
    ap₂ ◌∷◌ (answer ∙ Agrees-later t now m view o.0 a id)
      (run-eq cs now _ _ o.1 d' (take_join-Agrees t now id m view o.0 d a))

-- On an empty store and a clock that does not go back, a claim answers the last announcement under
-- its server id, if no claim came between and it has not expired, and nothing otherwise, however
-- other ids are announced and claimed meanwhile.
pub run-eq-view : (cs : List Call) (t : ℕ) → InOrder t cs → run cs [] ≡ run_view cs (λ id. none)
unfolding lookup
run-eq-view cs t o = run-eq cs t [] (λ id. none) o tt (λ id. refl)
