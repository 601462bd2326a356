-- ===== src/Realtime/Pairing.antt =====
-- Whom the rendezvous brings together, over every order of arrivals and timeouts.
use mathlib.Core.Bool.{Bool, true, false}
use mathlib.Core.Path.{ap₂}
use loontail_minecraft_netwo.Prelude.{
  ℕ, ◌≡◌, refl, ap, sym, ◌∙◌, Option, none, some, List, [], ◌∷◌, nat_beq, if◌then◌else◌, arith,
  Option-cases, Bool-cases, inl, inr, nat_eq, ==-sound, keep,
}
use loontail_minecraft_netwo.Prelude.Map.{
  lookup, contains_key, insert, remove, Distinct, lookup-insert, lookup-remove, lookup-none,
  lookup-some, insert-Distinct, remove-Distinct,
}
use loontail_minecraft_netwo.Realtime.Rendezvous.{
  RelayRole, host, guest, roles_pair, Waiting, park, take_peer, remove_waiting, Arrival, paired,
  parked, refused, arrive,
}

pub data Move : Type 0 where
  arrives : (session : ℕ) (role : RelayRole) (socket : ℕ) → Move
  times_out : (session : ℕ) → Move

-- A tunnel between two sockets.
pub record Tunnel : Type 0 where
  pub session : ℕ
  pub host_socket : ℕ
  pub guest_socket : ℕ

abbrev pub tunnel_of : ℕ → RelayRole → ℕ → ℕ → Tunnel
tunnel_of session host socket waiter = record {
  session = session;
  host_socket = socket;
  guest_socket = waiter;
}
tunnel_of session guest socket waiter = record {
  session = session;
  host_socket = waiter;
  guest_socket = socket;
}

abbrev pub tunnels_of : ℕ → RelayRole → ℕ → Arrival → List Tunnel → List Tunnel
tunnels_of session role socket (paired waiter) rest = tunnel_of session role socket waiter ∷ rest
tunnels_of session role socket parked rest = rest
tunnels_of session role socket refused rest = rest

unfoldable pub run : List Move → Waiting → List Tunnel
run [] hub = []
run (arrives session role socket ∷ moves) hub =
    let step = arrive session role socket hub in
    tunnels_of session role socket step.0 (run moves step.1)
run (times_out session ∷ moves) hub = run moves (remove_waiting session hub).1

-- The specification, of one session: only the party that waits matters.
unfoldable pub arrive_one :
    RelayRole → ℕ → Option (RelayRole × ℕ) → Arrival × Option (RelayRole × ℕ)
unfolding roles_pair
arrive_one role socket none = (parked, some (role, socket))
arrive_one role socket (some (waits, waiter)) =
    if roles_pair waits role then (paired waiter, none) else (refused, some (waits, waiter))

contains_key-absent :
    (session : ℕ) (hub : Waiting) → lookup session hub ≡ none → contains_key session hub ≡ false
contains_key-absent session hub e = elim (Bool-cases (contains_key session hub)) [
  | inl t ↦ (let (v, found) = lookup-some session hub t in absurd (cc))
  | inr n ↦ n
]

contains_key-there :
    (session : ℕ) (x : RelayRole × ℕ) (hub : Waiting)
    → lookup session hub ≡ some x
    → contains_key session hub ≡ true
contains_key-there session x hub e = elim (Bool-cases (contains_key session hub)) [
  | inl t ↦ t
  | inr n ↦ (let missing = lookup-none session hub n in absurd (cc))
]

arrive-absent :
    (session : ℕ) (role : RelayRole) (socket : ℕ) (hub : Waiting)
    → lookup session hub ≡ none
    → arrive session role socket hub ≡ (parked, insert session (role, socket) hub)
unfolding arrive take_peer park
arrive-absent session role socket hub e = let k = contains_key-absent session hub e in ground arith

arrive-there :
    (session : ℕ) (role waits : RelayRole) (socket waiter : ℕ) (hub : Waiting)
    → lookup session hub ≡ some (waits, waiter)
    → arrive session role socket hub
      ≡ (if roles_pair waits role then (paired waiter, remove session hub) else (refused, hub))
unfolding arrive take_peer park
arrive-there session role waits socket waiter hub e =
    let k = contains_key-there session (waits, waiter) hub e in ground arith

unchanged :
    (session other : ℕ) (x : RelayRole × ℕ) (hub : Waiting)
    → lookup session hub ≡ some x
    → lookup other hub ≡ (if nat_beq session other then some x else lookup other hub)
unchanged session other x hub e = elim (Bool-cases (nat_beq session other)) [
  | inl t ↦ rw t (ap (λ i. lookup i hub) (sym (==-sound session other t)) ∙ e)
  | inr n ↦ rw n refl
]

arrive-eq :
    (session other : ℕ) (role : RelayRole) (socket : ℕ) (hub : Waiting)
    → Distinct hub
    → ((arrive session role socket hub).0 ≡ (arrive_one role socket (lookup session hub)).0)
      × (lookup other (arrive session role socket hub).1 ≡ (
          if nat_beq session other
          then (arrive_one role socket (lookup session hub)).1
          else lookup other hub))
      × Distinct (arrive session role socket hub).1
unfolding arrive_one
arrive-eq session other role socket hub d = elim (Option-cases (lookup session hub)) [
  | inl e ↦
      rw (arrive-absent session role socket hub e, e)
        (
          refl,
          lookup-insert session other (role, socket) hub,
          insert-Distinct session (role, socket) hub d,
        )
  | inr ((waits, waiter), e) ↦ elim (Bool-cases (roles_pair waits role)) [
    | inl t ↦
        rw (arrive-there session role waits socket waiter hub e, e, t)
          (refl, lookup-remove session other hub d, remove-Distinct session hub d)
    | inr n ↦
        rw (arrive-there session role waits socket waiter hub e, e, n)
          (refl, unchanged session other (waits, waiter) hub e, d)
  ]
]

-- The specification of the tunnels of one session.
unfoldable pub run_one : ℕ → List Move → Option (RelayRole × ℕ) → List Tunnel
run_one i [] slot = []
run_one i (arrives session role socket ∷ moves) slot =
    let step = arrive_one role socket slot in
    if nat_beq session i
    then tunnels_of session role socket step.0 (run_one i moves step.1)
    else run_one i moves slot
run_one i (times_out session ∷ moves) slot =
    if nat_beq session i then run_one i moves none else run_one i moves slot

abbrev pub is_of : ℕ → Tunnel → Bool
is_of i t = nat_beq t.session i

remove_waiting-eq :
    (session other : ℕ) (hub : Waiting)
    → Distinct hub
    → (lookup other (remove_waiting session hub).1
        ≡ (if nat_beq session other then none else lookup other hub))
      × Distinct (remove_waiting session hub).1
unfolding remove_waiting
remove_waiting-eq session other hub d = elim (Option-cases (lookup session hub)) [
  | inl e ↦
      rw (e, remove_waiting)
        (
          elim (Bool-cases (nat_beq session other)) [
            | inl t ↦ rw t (ap (λ i. lookup i hub) (sym (==-sound session other t)) ∙ e)
            | inr n ↦ rw n refl
          ],
          d,
        )
  | inr (x, e) ↦
      rw (e, remove_waiting) (lookup-remove session other hub d, remove-Distinct session hub d)
]

tunnel_of-session :
    (session : ℕ) (role : RelayRole) (socket waiter : ℕ)
    → (tunnel_of session role socket waiter).session ≡ session
tunnel_of-session session host socket waiter = refl
tunnel_of-session session guest socket waiter = refl

keep-tunnels :
    (i session : ℕ) (role : RelayRole) (socket : ℕ) (a : Arrival) (rest : List Tunnel)
    → keep (is_of i) (tunnels_of session role socket a rest) ≡ (
        if nat_beq session i
        then tunnels_of session role socket a (keep (is_of i) rest)
        else keep (is_of i) rest)
unfolding keep
keep-tunnels i session role socket (paired waiter) rest =
    ground (arith, tunnel_of-session session role socket waiter)
keep-tunnels i session role socket parked rest = ground arith
keep-tunnels i session role socket refused rest = ground arith

keep-run :
    (i : ℕ) (moves : List Move) (hub : Waiting)
    → Distinct hub
    → keep (is_of i) (run moves hub) ≡ run_one i moves (lookup i hub)
unfolding run run_one
keep-run i [] hub d = unfold keep in refl
keep-run i (arrives session role socket ∷ moves) hub d =
    let (answer, found, d') = arrive-eq session i role socket hub d in
    let rest = keep-run i moves (arrive session role socket hub).1 d' in
    keep-tunnels i session role socket (arrive session role socket hub).0 _
    ∙ elim (Bool-cases (nat_beq session i)) [
      | inl t ↦
          let here = ap (λ x. lookup x hub) (==-sound session i t) in
          let slot : lookup i (arrive session role socket hub).1
              ≡ (arrive_one role socket (lookup i hub)).1 =
            found ∙ rw t (ap (λ x. (arrive_one role socket x).1) here) in
          rw t (
            ap₂ (tunnels_of session role socket)
              (answer ∙ ap (λ x. (arrive_one role socket x).0) here)
              (rest ∙ ap (run_one i moves) slot))
      | inr n ↦ rw n (rest ∙ ap (run_one i moves) (found ∙ rw n refl))
    ]
keep-run i (times_out session ∷ moves) hub d =
    let (found, d') = remove_waiting-eq session i hub d in
    keep-run i moves (remove_waiting session hub).1 d'
    ∙ rw found (elim (Bool-cases (nat_beq session i)) [ inl t ↦ rw t refl | inr n ↦ rw n refl ])

-- The rendezvous, started empty, treats each relay session by itself, in every order of arrivals and
-- timeouts of all of them: its tunnels are those of a single slot, which the first party takes, which
-- a party of the other role empties to form the tunnel, which a party of the same role leaves as it
-- is and is refused, and which a timeout empties.
pub keep-run-eq-run_one :
    (i : ℕ) (moves : List Move) → keep (is_of i) (run moves []) ≡ run_one i moves none
unfolding lookup
keep-run-eq-run_one i moves = keep-run i moves [] tt
