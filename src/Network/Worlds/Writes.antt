-- ===== src/Network/Worlds/Writes.antt =====
-- What each call on worlds writes.
use Prim.Native.String.{String}
use mathlib.Core.Bool.{true, false, ◌&&◌, ◌||◌, not}
use text.Mathlib.Text.{◌==◌ as str_eq}
use loontail_minecraft_netwo.Prelude.{
  ℕ, ◌≡◌, ◌≤◌, ◌⊎◌, refl, ap, ◌∙◌, Option, none, some, leb, nat_beq, any, find_sound, update_where,
  arith, Option-cases, Bool-cases, inl, inr,
}
use loontail_minecraft_netwo.Prelude.Int.{ℤ}
use loontail_minecraft_netwo.Network.Store.{
  WorldSession, WorldStatus, opened, closed, InvitePolicy, host_only, friends_of_friends, is_open,
  Net, Env,
}
use loontail_minecraft_netwo.Network.Effect.{
  AppError, bad_request, M, done, fail, final, Outcome-cases,
}
use loontail_minecraft_netwo.Network.Presence.{broadcast_presence}
use loontail_minecraft_netwo.Network.Ticket.{find_world}
use loontail_minecraft_netwo.Network.Worlds.{
  parse_status, parse_policy, has_world_id, Patch, patched, is_other_open, update_row, update_tx,
  announce_policy, same_policy, parsed_or, new_capacity, clamps, update,
}
use loontail_minecraft_netwo.Network.Worlds.Validity.{clamp-InBounds}
use loontail_minecraft_netwo.Network.Worlds.Effects.{
  Call, creates, updates, closes, step, by_patch, Writes, nothing, patches, shuts, Same-refl,
  announce_policy-Same, create_world-Writes, cleaned, close_world_cleanup-cases, close-Writes,
  Writes-Same,
}

row_id : (id : ℕ) (s : Net) (w : WorldSession) → find_world id s ≡ some w → w.id ≡ id
unfolding find_world
row_id id s w e = (let k = find_sound (has_world_id id) s.worlds w e in ground (arith, k))

update_row-parts :
    (env : Env) (id host max : ℕ) (status : WorldStatus) (policy : InvitePolicy) (s t : Net)
    (x : WorldSession)
    → update_row env id host max status policy s ≡ done x t
    → (is_open status ≡ true → any (is_other_open id host) s.worlds ≡ false)
      × (t ≡ record s {
        worlds = update_where (has_world_id id) (patched env max status policy) s.worlds;
      })
unfolding update_row
update_row-parts env id host max status policy s t x h =
    let after : Net = record s {
      worlds = update_where (has_world_id id) (patched env max status policy) s.worlds;
    } in
    elim (Bool-cases (is_open status && any (is_other_open id host) s.worlds)) [
      | inl y ↦ absurd (let k = rw (y, update_row) at h in cc)
      | inr n ↦ elim (Option-cases (find_world id after)) [
        | inl e ↦ absurd (let k = rw (n, e, update_row) at h in cc)
        | inr (w, e) ↦ (λ o. ground (arith, n, o), (let k = rw (n, e, update_row) at h in cc))
      ]
    ]

closed_status : (status : WorldStatus) → is_open status ≡ false → status ≡ closed
closed_status opened h = absurd (cc)
closed_status closed h = refl

update_tx-Writes :
    (env : Env) (id max : ℕ) (w : WorldSession) (status : WorldStatus) (policy : InvitePolicy)
    (s t : Net) (x : WorldSession)
    → find_world id s ≡ some w
    → (max ≡ w.max_players) ⊎ ((1 ≤ max) × (max ≤ env.max_players_per_world))
    → update_tx env w max status policy s ≡ done x t
    → Writes env s t
unfolding update_tx cleaned
update_tx-Writes env id max w status policy s t x e b h =
    let named = row_id id s w e in
    elim (Outcome-cases (update_row env w.id w.host_user_id max status policy s)) [
      | inr (err, u, r) ↦ absurd (let k = rw (r, update_tx) at h in cc)
      | inl (y, u, r) ↦
          let (free, after) = update_row-parts env w.id w.host_user_id max status policy s u y r in
          elim (Bool-cases (is_open w.status && not (is_open status))) [
            | inr n ↦
                (let k = rw (r, n, update_tx) at h in
                  let same : t ≡ u = cc in
                  patches w.id max status policy w (ap (λ i. find_world i s) named ∙ e) b free
                    (λ o. ground (arith, n, o)) (rw (same ∙ after) (Same-refl _)))
            | inl c ↦ elim (close_world_cleanup-cases env w.id w.host_user_id u) [
              | inr k ↦ absurd (let j = rw (r, c, k, update_tx) at h in cc)
              | inl (z, k) ↦
                  let j = rw (r, c, k, update_tx) at h in
                  let same : t ≡ cleaned env w.id w.host_user_id u = cc in
                  let shut_now = closed_status status (ground (arith, c)) in
                  let ends : t ≡ _ =
                    same
                    ∙ ap (cleaned env w.id w.host_user_id) (
                        after
                        ∙ ap
                            (λ a. record s {
                              worlds =
                                  update_where (has_world_id w.id) (patched env max a policy)
                                    s.worlds;
                            })
                            shut_now) in
                  shuts w.id w _ (ap (λ i. find_world i s) named ∙ e) (by_patch max policy b)
                    (rw ends (Same-refl _))
            ]
          ]
    ]

parse_status-pure :
    (value : String) (s : Net)
    → ((x : WorldStatus) × (parse_status value s ≡ done x s))
      ⊎ ((e : AppError) × (parse_status value s ≡ fail e s))
unfolding parse_status
parse_status-pure value s = elim (Bool-cases (str_eq value "open")) [
  | inl y ↦ inl (opened, rw (y, parse_status) refl)
  | inr n ↦ elim (Bool-cases (str_eq value "closed")) [
    | inl y ↦ inl (closed, rw (n, y, parse_status) refl)
    | inr m ↦ inr (bad_request "status must be open or closed", rw (n, m, parse_status) refl)
  ]
]

parse_policy-pure :
    (value : String) (s : Net)
    → ((x : InvitePolicy) × (parse_policy value s ≡ done x s))
      ⊎ ((e : AppError) × (parse_policy value s ≡ fail e s))
unfolding parse_policy
parse_policy-pure value s = elim (Bool-cases (str_eq value "host_only")) [
  | inl y ↦ inl (host_only, rw (y, parse_policy) refl)
  | inr n ↦ elim (Bool-cases (str_eq value "friends_of_friends")) [
    | inl y ↦ inl (friends_of_friends, rw (n, y, parse_policy) refl)
    | inr m ↦ inr (
      bad_request "invitePolicy must be host_only or friends_of_friends",
      rw (n, m, parse_policy) refl,
    )
  ]
]

parsed_or-pure :
    {A : Type 0} (parse : String → M A) (kept : A) (text : Option String) (s : Net)
    → ((value : String)
        → ((x : A) × (parse value s ≡ done x s)) ⊎ ((e : AppError) × (parse value s ≡ fail e s)))
    → ((x : A) × (parsed_or parse kept text s ≡ done x s))
      ⊎ ((e : AppError) × (parsed_or parse kept text s ≡ fail e s))
parsed_or-pure parse kept none s h = inl (kept, refl)
parsed_or-pure parse kept (some value) s h = h value

new_capacity-InBounds :
    (env : Env) (kept : ℕ) (value : Option ℤ)
    → (not (clamps value) || leb 1 env.max_players_per_world) ≡ true
    → (new_capacity env kept value ≡ kept)
      ⊎ ((1 ≤ new_capacity env kept value)
          × (new_capacity env kept value ≤ env.max_players_per_world))
new_capacity-InBounds env kept none h = inl refl
new_capacity-InBounds env kept (some value) h =
    inr (clamp-InBounds env.max_players_per_world value (ground (arith, h)))

update-Writes :
    (env : Env) (me id : ℕ) (body : Patch) (s : Net)
    → Writes env s (final (update env me id body s))
unfolding update announce_policy broadcast_presence
update-Writes env me id body s = elim (Option-cases (find_world id s)) [
  | inl e ↦ rw (e, update) (nothing (Same-refl s))
  | inr (w, e) ↦ elim (Bool-cases (nat_beq w.host_user_id me)) [
    | inr n ↦ rw (e, n, update) (nothing (Same-refl s))
    | inl y ↦ elim (Bool-cases (not (clamps body.max_players) || leb 1 env.max_players_per_world)) [
      | inr n ↦ rw (e, y, n, update) (nothing (Same-refl s))
      | inl c ↦
          elim (parsed_or-pure parse_status w.status body.status s (λ v. parse_status-pure v s)) [
            | inr (err, p) ↦ rw (e, y, c, p, update) (nothing (Same-refl s))
            | inl (status, p) ↦
                elim (parsed_or-pure parse_policy w.invite_policy body.invite_policy s
                  (λ v. parse_policy-pure v s)) [
                    | inr (err, q) ↦ rw (e, y, c, p, q, update) (nothing (Same-refl s))
                    | inl (policy, q) ↦
                        let max = new_capacity env w.max_players body.max_players in
                        elim (Outcome-cases (update_tx env w max status policy s)) [
                          | inr (err, t, r) ↦ rw (e, y, c, p, q, r, update) (nothing (Same-refl s))
                          | inl (x, t, r) ↦
                              let wrote =
                                update_tx-Writes env id max w status policy s t x e
                                  (new_capacity-InBounds env w.max_players body.max_players c) r in
                              elim (Bool-cases (same_policy policy w.invite_policy)) [
                                | inl z ↦ rw (e, y, c, p, q, r, z, update) wrote
                                | inr z ↦
                                    rw (e, y, c, p, q, r, z, update)
                                      (Writes-Same wrote
                                        (announce_policy-Same id w.host_user_id policy t))
                              ]
                        ]
                  ]
          ]
    ]
  ]
]

pub step-Writes : (env : Env) (c : Call) (s : Net) → Writes env s (step env c s)
unfolding step
step-Writes env (creates me requested) s = create_world-Writes env me requested s
step-Writes env (updates me id body) s = update-Writes env me id body s
step-Writes env (closes me id) s = close-Writes env me id s
