-- ===== src/Network/Relay/Slots.antt =====
-- The player slots of a world, over every order of tunnels that open and close.
use mathlib.Core.Bool.{Bool, true, false}
use loontail_minecraft_netwo.Prelude.{
  ℕ, zero, suc, ◌≡◌, refl, ap, sym, ◌∙◌, Option, none, some, List, [], ◌∷◌, ltb, nat_beq,
  if◌then◌else◌, any, update_where, All, arith, Bool-cases, inl, inr,
}
use loontail_minecraft_netwo.Network.Store.{WorldSession, is_open, Net, Env}
use loontail_minecraft_netwo.Network.Presence.{broadcast_presence, friend_ids}
use loontail_minecraft_netwo.Network.Presence.Owned.{push_updates-kept}
use loontail_minecraft_netwo.Network.Relay.{
  has_slot, take_slot, free_slot, try_admit_player, release_player, mark_relay_active,
  mark_relay_closed, announce_guest, begin_pairing, end_pairing,
}

pub data Move : Type 0 where
  arrives leaves : (relay : ℕ) (guest_id : Option ℕ) → Move

-- The answers to the arrivals; `inside` tunnels are open, and only an open one can end.
unfoldable pub run : Env → ℕ → List Move → ℕ → Net → List Bool
run env world [] inside s = []
run env world (arrives relay g ∷ moves) inside s =
    let begun = begin_pairing env relay world g s in
    begun.0 ∷ run env world moves (if begun.0 then suc inside else inside) begun.1
run env world (leaves relay g ∷ moves) zero s = run env world moves zero s
run env world (leaves relay g ∷ moves) (suc inside) s =
    run env world moves inside (end_pairing env relay world g s)

-- The specification: a counter of open tunnels with a hard cap.
unfoldable pub seats : ℕ → List Move → ℕ → List Bool
seats cap [] inside = []
seats cap (arrives relay g ∷ moves) inside =
    ltb inside cap ∷ seats cap moves (if ltb inside cap then suc inside else inside)
seats cap (leaves relay g ∷ moves) zero = seats cap moves zero
seats cap (leaves relay g ∷ moves) (suc inside) = seats cap moves inside

-- Each row of the world is open with `cap` slots, `inside` of them taken.
abbrev pub Seated : ℕ → ℕ → ℕ → List WorldSession → Type 0
Seated world cap inside = All λ w.
    nat_beq w.id world ≡ true
    → (is_open w.status ≡ true) × (w.max_players ≡ cap) × (w.current_players ≡ inside)

abbrev pub is_world : ℕ → WorldSession → Bool
is_world world w = nat_beq w.id world

has_slot-seated :
    (world cap inside : ℕ) (w : WorldSession)
    → (is_open w.status ≡ true) × (w.max_players ≡ cap) × (w.current_players ≡ inside)
    → nat_beq w.id world ≡ true
    → has_slot world w ≡ ltb inside cap
has_slot-seated world cap inside w (o, m, c) h = ground (arith, o, m, c, h)

any-has_slot_full :
    (world cap inside : ℕ) (ws : List WorldSession)
    → Seated world cap inside ws
    → ltb inside cap ≡ false
    → any (has_slot world) ws ≡ false
unfolding any
any-has_slot_full world cap inside [] v f = refl
any-has_slot_full world cap inside (w ∷ ws) v f =
    let rest = any-has_slot_full world cap inside ws v.1 f in
    elim (Bool-cases (nat_beq w.id world)) [
      | inl h ↦ rw (has_slot-seated world cap inside w (v.0 h) h, f) rest
      | inr h ↦ ground (arith, rest, h)
    ]

any-has_slot :
    (world cap inside : ℕ) (ws : List WorldSession)
    → Seated world cap inside ws
    → any (is_world world) ws ≡ true
    → any (has_slot world) ws ≡ ltb inside cap
unfolding any
any-has_slot world cap inside [] v e = absurd (cc)
any-has_slot world cap inside (w ∷ ws) v e = elim (Bool-cases (nat_beq w.id world)) [
  | inl h ↦ elim (Bool-cases (ltb inside cap)) [
    | inl t ↦ rw (has_slot-seated world cap inside w (v.0 h) h, t) refl
    | inr f ↦ any-has_slot_full world cap inside (w ∷ ws) v f ∙ sym f
  ]
  | inr h ↦ (let rest = any-has_slot world cap inside ws v.1 in ground (arith, rest, h))
]

any-update_where :
    (p q : WorldSession → Bool) (f : WorldSession → WorldSession) (ws : List WorldSession)
    → ((w : WorldSession) → p (f w) ≡ p w)
    → any p (update_where q f ws) ≡ any p ws
unfolding any update_where
any-update_where p q f [] h = refl
any-update_where p q f (w ∷ ws) h = ground (arith, any-update_where p q f ws h, h w)

Seated-full :
    (world cap inside : ℕ) (ws : List WorldSession)
    → Seated world cap inside ws
    → ltb inside cap ≡ false
    → Seated world cap inside (update_where (has_slot world) take_slot ws)
unfolding update_where
Seated-full world cap inside [] v f = tt
Seated-full world cap inside (w ∷ ws) v f =
    let rest = Seated-full world cap inside ws v.1 f in
    elim (Bool-cases (nat_beq w.id world)) [
      | inl h ↦ rw (has_slot-seated world cap inside w (v.0 h) h, f) (v.0, rest)
      | inr h ↦ let no : has_slot world w ≡ false = ground (arith, h) in rw no (v.0, rest)
    ]

Seated-take :
    (world cap inside : ℕ) (ws : List WorldSession)
    → Seated world cap inside ws
    → ltb inside cap ≡ true
    → Seated world cap (suc inside) (update_where (has_slot world) take_slot ws)
unfolding update_where
Seated-take world cap inside [] v f = tt
Seated-take world cap inside (w ∷ ws) v f =
    let rest = Seated-take world cap inside ws v.1 f in
    elim (Bool-cases (nat_beq w.id world)) [
      | inl h ↦
          let (o, m, c) = v.0 h in
          rw (has_slot-seated world cap inside w (v.0 h) h, f) (λ k. (o, m, omega (arith, c)), rest)
      | inr h ↦
          let no : has_slot world w ≡ false = ground (arith, h) in rw no (λ k. absurd (cc), rest)
    ]

Seated-free :
    (world cap inside : ℕ) (ws : List WorldSession)
    → Seated world cap (suc inside) ws
    → Seated world cap inside (update_where (is_world world) free_slot ws)
unfolding update_where
Seated-free world cap inside [] v = tt
Seated-free world cap inside (w ∷ ws) v =
    let rest = Seated-free world cap inside ws v.1 in
    elim (Bool-cases (nat_beq w.id world)) [
      | inl h ↦ let (o, m, c) = v.0 h in rw h (λ k. (o, m, omega (arith, c)), rest)
      | inr h ↦ rw h (λ k. absurd (cc), rest)
    ]

announce_guest-worlds : (g : Option ℕ) (s : Net) → (announce_guest g s).worlds ≡ s.worlds
unfolding broadcast_presence
announce_guest-worlds none s = refl
announce_guest-worlds (some id) s = (push_updates-kept id (friend_ids id s) s).1

begin_pairing-parts :
    (env : Env) (relay world : ℕ) (g : Option ℕ) (s : Net)
    → ((begin_pairing env relay world g s).0 ≡ any (has_slot world) s.worlds)
      × ((begin_pairing env relay world g s).1.worlds
          ≡ update_where (has_slot world) take_slot s.worlds)
unfolding begin_pairing try_admit_player mark_relay_active mark_relay_closed
begin_pairing-parts env relay world g s = elim (Bool-cases (any (has_slot world) s.worlds)) [
  | inl e ↦ rw e (refl, announce_guest-worlds g _)
  | inr e ↦ rw e (refl, refl)
]

end_pairing-worlds :
    (env : Env) (relay world : ℕ) (g : Option ℕ) (s : Net)
    → (end_pairing env relay world g s).worlds ≡ update_where (is_world world) free_slot s.worlds
unfolding end_pairing release_player mark_relay_closed
end_pairing-worlds env relay world g s = announce_guest-worlds g _

-- While a world stays open, the relay is a counter with a hard cap: from a state where the world is
-- there, and each of its rows is open with `cap` slots and as many of them taken as tunnels are
-- open, the guests that are let in are exactly those who arrive while fewer than `cap` tunnels are
-- open, in every order of arrivals and departures.
pub run-eq-seats :
    (env : Env) (world cap inside : ℕ) (moves : List Move) (s : Net)
    → Seated world cap inside s.worlds
    → any (is_world world) s.worlds ≡ true
    → run env world moves inside s ≡ seats cap moves inside
unfolding run seats
run-eq-seats env world cap inside [] s v e = refl
run-eq-seats env world cap inside (arrives relay g ∷ moves) s v e =
    let parts = begin_pairing-parts env relay world g s in
    let answer = parts.0 ∙ any-has_slot world cap inside s.worlds v e in
    let there =
      any-update_where (is_world world) (has_slot world) take_slot s.worlds (λ w. refl) ∙ e in
    elim (Bool-cases (ltb inside cap)) [
      | inl t ↦
          rw (answer, t)
            (ap (λ xs. true ∷ xs)
              (run-eq-seats env world cap (suc inside) moves (begin_pairing env relay world g s).1
                (rw parts.1 (Seated-take world cap inside s.worlds v t)) (rw parts.1 there)))
      | inr f ↦
          rw (answer, f)
            (ap (λ xs. false ∷ xs)
              (run-eq-seats env world cap inside moves (begin_pairing env relay world g s).1
                (rw parts.1 (Seated-full world cap inside s.worlds v f)) (rw parts.1 there)))
    ]
run-eq-seats env world cap zero (leaves relay g ∷ moves) s v e =
    run-eq-seats env world cap zero moves s v e
run-eq-seats env world cap (suc inside) (leaves relay g ∷ moves) s v e =
    let after = end_pairing-worlds env relay world g s in
    run-eq-seats env world cap inside moves (end_pairing env relay world g s)
      (rw after (Seated-free world cap inside s.worlds v))
      (rw after
        (any-update_where (is_world world) (is_world world) free_slot s.worlds (λ w. refl) ∙ e))
