-- ===== src/Realtime/Delivery.antt =====
-- The hub against its specification: the live connections of each user.
use mathlib.Core.Bool.{Bool, false, not}
use mathlib.Core.Path.{ap₂}
use loontail_minecraft_netwo.Prelude.{
  ℕ, ◌≡◌, refl, ap, sym, ◌∙◌, none, some, List, [], ◌∷◌, ◌++◌, nat_beq, if◌then◌else◌, keep, arith,
  Option-cases, Bool-cases, inl, inr, nat_eq, ==-sound,
}
use loontail_minecraft_netwo.Prelude.Map.{
  lookup, contains_key, insert, Distinct, lookup-insert, lookup-remove, lookup-none, lookup-some,
  insert-Distinct, remove-Distinct,
}
use loontail_minecraft_netwo.Realtime.Hub.{
  Hub, connections_of, add, is_empty, store, remove_connection, send_to, is_online,
}

-- Calls on the hub; a send carries which receivers exist at that moment.
pub data Call : Type 0 where
  adds removes : (user conn : ℕ) → Call
  sends : (alive : ℕ → Bool) (user : ℕ) → Call

-- The connections that a call delivers to.
unfoldable pub step : Call → Hub → List ℕ × Hub
unfolding add remove_connection send_to
step (adds user conn) hub = ([], add user conn hub)
step (removes user conn) hub = ([], remove_connection user conn hub)
step (sends alive user) hub = send_to alive user hub

unfoldable pub run : List Call → Hub → List (List ℕ) × Hub
unfolding step
run [] hub = ([], hub)
run (c ∷ cs) hub = ((step c hub).0 ∷ (run cs (step c hub).1).0, (run cs (step c hub).1).1)

-- The specification: a list of connections to each user, with no map behind it.
abbrev pub View : Type 0
View = ℕ → List ℕ

abbrev pub set_view : ℕ → List ℕ → View → View
set_view user conns view other = if nat_beq user other then conns else view other

unfoldable pub step_view : Call → View → List ℕ × View
step_view (adds user conn) view = ([], set_view user (view user ++ conn ∷ []) view)
step_view (removes user conn) view =
    ([], set_view user (keep (λ c. not (nat_beq c conn)) (view user)) view)
step_view (sends alive user) view =
    (keep alive (view user), set_view user (keep alive (view user)) view)

unfoldable pub run_view : List Call → View → List (List ℕ) × View
unfolding step_view
run_view [] view = ([], view)
run_view (c ∷ cs) view = (
  (step_view c view).0 ∷ (run_view cs (step_view c view).1).0,
  (run_view cs (step_view c view).1).1,
)

-- One entry to a user, and none of them empty.
pub record IsTidy (hub : Hub) : Type 0 where
  pub distinct : Distinct hub
  pub inhabited :
      (user : ℕ) (conns : List ℕ) → lookup user hub ≡ some conns → is_empty conns ≡ false

empty-IsTidy : IsTidy []
unfolding lookup
empty-IsTidy = record { distinct = tt; inhabited = λ u cs e. absurd (cc) }

abbrev pub Shows : Hub → View → Type 0
Shows hub view = (user : ℕ) → connections_of user hub ≡ view user

lookup-store :
    (user other : ℕ) (conns : List ℕ) (hub : Hub)
    → Distinct hub
    → lookup other (store user conns hub) ≡ (
        if nat_beq user other
        then if is_empty conns then none else some conns
        else lookup other hub)
unfolding store
lookup-store user other [] hub d = ground (arith, lookup-remove user other hub d)
lookup-store user other (c ∷ cs) hub d = ground (arith, lookup-insert user other (c ∷ cs) hub)

connections_of-store :
    (user other : ℕ) (conns : List ℕ) (hub : Hub)
    → Distinct hub
    → connections_of other (store user conns hub)
      ≡ (if nat_beq user other then conns else connections_of other hub)
unfolding connections_of
connections_of-store user other [] hub d = ground (arith, lookup-store user other [] hub d)
connections_of-store user other (c ∷ cs) hub d =
    ground (arith, lookup-store user other (c ∷ cs) hub d)

store-Distinct :
    (user : ℕ) (conns : List ℕ) (hub : Hub) → Distinct hub → Distinct (store user conns hub)
unfolding store
store-Distinct user [] hub d = remove-Distinct user hub d
store-Distinct user (c ∷ cs) hub d = insert-Distinct user (c ∷ cs) hub d

store-IsTidy : (user : ℕ) (conns : List ℕ) (hub : Hub) → IsTidy hub → IsTidy (store user conns hub)
store-IsTidy user conns hub v = record {
  distinct = store-Distinct user conns hub v.distinct;
  inhabited = λ u cs e.
      (let k = lookup-store user u conns hub v.distinct in
        let old = v.inhabited u cs in ground arith);
}

-- `remove_connection` and `send_to` change one entry, if it is there.
abbrev edit : (List ℕ → List ℕ) → ℕ → Hub → Hub
edit f user hub = elim (lookup user hub) [ none ↦ hub | some conns ↦ store user (f conns) hub ]

edit-IsTidy : (f : List ℕ → List ℕ) (user : ℕ) (hub : Hub) → IsTidy hub → IsTidy (edit f user hub)
edit-IsTidy f user hub v = elim (Option-cases (lookup user hub)) [
  | inl e ↦ rw (e, edit) v
  | inr (conns, e) ↦ rw (e, edit) (store-IsTidy user (f conns) hub v)
]

edit-Shows :
    (f : List ℕ → List ℕ) (user : ℕ) (hub : Hub) (view : View)
    → f [] ≡ []
    → IsTidy hub
    → Shows hub view
    → Shows (edit f user hub) (set_view user (f (view user)) view)
unfolding connections_of
edit-Shows f user hub view z v h other = elim (Option-cases (lookup user hub)) [
  | inl e ↦
      let same : edit f user hub ≡ hub = rw (e, edit) refl in
      let nobody : view user ≡ [] = sym (h user) ∙ rw (e, connections_of) refl in
      rw (same, nobody, z)
        (elim (Bool-cases (nat_beq user other)) [
          | inl t ↦
              rw t (ap (λ u. connections_of u hub) (sym (==-sound user other t)) ∙ h user ∙ nobody)
          | inr n ↦ rw n (h other)
        ])
  | inr (conns, e) ↦
      let same : edit f user hub ≡ store user (f conns) hub = rw (e, edit) refl in
      let there : view user ≡ conns = sym (h user) ∙ rw (e, connections_of) refl in
      rw (same, there)
        (connections_of-store user other (f conns) hub v.distinct
          ∙ ap (λ cs. if nat_beq user other then f conns else cs) (h other))
]

add-eq :
    (user conn : ℕ) (hub : Hub)
    → add user conn hub ≡ store user (connections_of user hub ++ conn ∷ []) hub
unfolding add store
add-eq user conn hub =
    elim (connections_of user hub)
      as (λ cs. insert user (cs ++ conn ∷ []) hub ≡ store user (cs ++ conn ∷ []) hub) [
        | [] ↦ refl
        | c ∷ cs ↦ refl
      ]

add-Shows :
    (user conn : ℕ) (hub : Hub) (view : View)
    → IsTidy hub
    → Shows hub view
    → Shows (add user conn hub) (set_view user (view user ++ conn ∷ []) view)
add-Shows user conn hub view v h other =
    rw (add-eq user conn hub, ← h user)
      (connections_of-store user other (connections_of user hub ++ conn ∷ []) hub v.distinct
        ∙ ap (λ cs. if nat_beq user other then connections_of user hub ++ conn ∷ [] else cs)
            (h other))

send_to-parts :
    (alive : ℕ → Bool) (user : ℕ) (hub : Hub)
    → ((send_to alive user hub).0 ≡ keep alive (connections_of user hub))
      × ((send_to alive user hub).1 ≡ edit (keep alive) user hub)
unfolding keep send_to connections_of
send_to-parts alive user hub = elim (Option-cases (lookup user hub)) [
  | inl e ↦ (rw (e, send_to, connections_of) refl, rw (e, send_to, edit) refl)
  | inr (conns, e) ↦ (rw (e, send_to, connections_of) refl, rw (e, send_to, edit) refl)
]

-- One call, on the hub and on the view.
record Agrees (c : Call) (hub : Hub) (view : View) : Type 0 where
  tidy : IsTidy (step c hub).1
  delivers : (step c hub).0 ≡ (step_view c view).0
  shows : Shows (step c hub).1 (step_view c view).1

step-Agrees : (c : Call) (hub : Hub) (view : View) → IsTidy hub → Shows hub view → Agrees c hub view
unfolding step step_view remove_connection send_to
step-Agrees (adds user conn) hub view v h = record {
  tidy = rw (add-eq user conn hub) (store-IsTidy user _ hub v);
  delivers = refl;
  shows = add-Shows user conn hub view v h;
}
step-Agrees (removes user conn) hub view v h = record {
  tidy = edit-IsTidy (keep (λ c. not (nat_beq c conn))) user hub v;
  delivers = refl;
  shows = edit-Shows (keep (λ c. not (nat_beq c conn))) user hub view (unfold keep in refl) v h;
}
step-Agrees (sends alive user) hub view v h =
    let (delivered, left) = send_to-parts alive user hub in
    record {
      tidy = rw left (edit-IsTidy (keep alive) user hub v);
      delivers = delivered ∙ ap (keep alive) (h user);
      shows = rw left (edit-Shows (keep alive) user hub view (unfold keep in refl) v h);
    }

run-Agrees :
    (cs : List Call) (hub : Hub) (view : View)
    → IsTidy hub
    → Shows hub view
    → ((run cs hub).0 ≡ (run_view cs view).0)
      × IsTidy (run cs hub).1
      × Shows (run cs hub).1 (run_view cs view).1
unfolding run run_view
run-Agrees [] hub view v h = (refl, v, h)
run-Agrees (c ∷ cs) hub view v h =
    let now = step-Agrees c hub view v h in
    let (same, tidy, shows) =
      run-Agrees cs (step c hub).1 (step_view c view).1 now.tidy now.shows in
    (ap₂ ◌∷◌ now.delivers same, tidy, shows)

is_online-eq :
    (user : ℕ) (hub : Hub)
    → IsTidy hub
    → is_online user hub ≡ not (is_empty (connections_of user hub))
unfolding is_online connections_of
is_online-eq user hub v = elim (Bool-cases (contains_key user hub)) [
  | inl e ↦
      let (conns, found) = lookup-some user hub e in
      rw (e, found, connections_of) (rw (v.inhabited user conns found) refl)
  | inr e ↦ rw (e, lookup-none user hub e, connections_of) refl
]

-- However calls follow one another on an empty hub, each event reaches exactly the connections that
-- its user added, did not remove, and whose receivers existed at every earlier send to that user and
-- at this one, in the order in which they were added; and a user is online exactly while such a
-- connection is left.
pub run-eq-run_view :
    (cs : List Call) (user : ℕ)
    → ((run cs []).0 ≡ (run_view cs (λ u. [])).0)
      × (is_online user (run cs []).1 ≡ not (is_empty ((run_view cs (λ u. [])).1 user)))
run-eq-run_view cs user =
    let (same, tidy, shows) =
      run-Agrees cs [] (λ u. []) empty-IsTidy (λ u. unfold connections_of lookup in refl) in
    (same, is_online-eq user (run cs []).1 tidy ∙ ap (λ xs. not (is_empty xs)) (shows user))
