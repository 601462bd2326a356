-- ===== src/Network/Worlds/Validity.antt =====
-- What the table of worlds satisfies after any calls.
use mathlib.Core.Bool.{Bool, true, false}
use loontail_minecraft_netwo.Prelude.{
  ℕ, suc, ◌≡◌, ◌≤◌, ◌<◌, refl, ap, sym, ◌∙◌, Option, none, some, List, [], ◌∷◌, nat_beq, any, find,
  update_where, count_where, All, All-update_where, All-map, count_where-update-le, arith,
  Bool-cases, inl, inr, subst,
}
use loontail_minecraft_netwo.Prelude.Int.{ℤ, pos, negsuc, clamp}
use loontail_minecraft_netwo.Network.Store.{WorldSession, opened, closed, InvitePolicy, Env}
use loontail_minecraft_netwo.Network.Worlds.{
  is_open_of, has_world_id, capacity, new_world, reuse, emptied, patched, is_other_open, shut,
}

abbrev pub InBounds : Env → WorldSession → Type 0
InBounds env w = (1 ≤ w.max_players) × (w.max_players ≤ env.max_players_per_world)

-- An id names one world and is used up, a host has at most one open world, and a world has between
-- one slot and the cap.
pub record IsValid (env : Env) (worlds : List WorldSession) (next : ℕ) : Type 0 where
  pub used : All (λ w. w.id < next) worlds
  pub unique : (id : ℕ) → count_where (has_world_id id) worlds ≤ 1
  pub one_open : (host : ℕ) → count_where (is_open_of host) worlds ≤ 1
  pub bounded : All (InBounds env) worlds

-- A change that keeps ids and bounds, and leaves the opening to its caller.
pub change-IsValid :
    (env : Env) (q : WorldSession → Bool) (f : WorldSession → WorldSession) (ws : List WorldSession)
    (n : ℕ)
    → ((w : WorldSession) → (f w).id ≡ w.id)
    → ((w : WorldSession) → InBounds env w → InBounds env (f w))
    → ((host : ℕ) → count_where (is_open_of host) (update_where q f ws) ≤ 1)
    → IsValid env ws n
    → IsValid env (update_where q f ws) n
change-IsValid env q f ws n same bound one v = record {
  used = All-update_where (λ w. w.id < n) q f ws (λ w a. rw (same w) a) v.used;
  unique = λ id.
      (let le =
          count_where-update-le (has_world_id id) q f ws
            (λ w t e. (let k = ap (λ i. nat_beq i id) (sym (same w)) in k ∙ e)) in
        omega (arith, le, v.unique id));
  one_open = one;
  bounded = All-update_where (InBounds env) q f ws bound v.bounded;
}

-- A change that opens no world and gives none away.
pub quiet-IsValid :
    (env : Env) (q : WorldSession → Bool) (f : WorldSession → WorldSession) (ws : List WorldSession)
    (n : ℕ)
    → ((w : WorldSession) → (f w).id ≡ w.id)
    → ((w : WorldSession) → InBounds env w → InBounds env (f w))
    → ((host : ℕ) (w : WorldSession) → is_open_of host (f w) ≡ true → is_open_of host w ≡ true)
    → IsValid env ws n
    → IsValid env (update_where q f ws) n
quiet-IsValid env q f ws n same bound quiet v =
    change-IsValid env q f ws n same bound
      (λ host.
        (let le = count_where-update-le (is_open_of host) q f ws (λ w t e. quiet host w e) in
          omega (arith, le, v.one_open host)))
      v

pub clamp-InBounds :
    (cap : ℕ) (value : ℤ) → 1 ≤ cap → (1 ≤ clamp 1 cap value) × (clamp 1 cap value ≤ cap)
unfolding clamp
clamp-InBounds cap (pos n) h = ground arith
clamp-InBounds cap (negsuc n) h = ground arith

pub capacity-InBounds :
    (env : Env) (requested : Option ℤ)
    → 1 ≤ env.max_players_per_world
    → (1 ≤ capacity env requested) × (capacity env requested ≤ env.max_players_per_world)
capacity-InBounds env none h =
    clamp-InBounds env.max_players_per_world (pos env.max_players_per_world) h
capacity-InBounds env (some value) h = clamp-InBounds env.max_players_per_world value h

pub emptied-IsValid :
    (env : Env) (q : WorldSession → Bool) (ws : List WorldSession) (n : ℕ)
    → IsValid env ws n
    → IsValid env (update_where q emptied ws) n
emptied-IsValid env q ws n v =
    quiet-IsValid env q emptied ws n (λ w. refl) (λ w a. a) (λ h w e. e) v

pub shut-IsValid :
    (env : Env) (q : WorldSession → Bool) (ws : List WorldSession) (n : ℕ)
    → IsValid env ws n
    → IsValid env (update_where q (shut env) ws) n
shut-IsValid env q ws n v =
    quiet-IsValid env q (shut env) ws n (λ w. refl) (λ w a. a) (λ h w e. absurd (ground arith)) v

pub reuse-IsValid :
    (env : Env) (max : ℕ) (q : WorldSession → Bool) (ws : List WorldSession) (n : ℕ)
    → (1 ≤ max) × (max ≤ env.max_players_per_world)
    → IsValid env ws n
    → IsValid env (update_where q (reuse max) ws) n
reuse-IsValid env max q ws n b v =
    quiet-IsValid env q (reuse max) ws n (λ w. refl) (λ w a. b) (λ h w e. e) v

pub patched_closed-IsValid :
    (env : Env) (max : ℕ) (policy : InvitePolicy) (q : WorldSession → Bool) (ws : List WorldSession)
    (n : ℕ)
    → (1 ≤ max) × (max ≤ env.max_players_per_world)
    → IsValid env ws n
    → IsValid env (update_where q (patched env max closed policy) ws) n
patched_closed-IsValid env max policy q ws n b v =
    quiet-IsValid env q (patched env max closed policy) ws n (λ w. refl) (λ w a. b)
      (λ h w e. absurd (ground arith)) v

count_where-none :
    (P : WorldSession → Type 0) (p : WorldSession → Bool) (ws : List WorldSession)
    → count_where p ws ≡ 0
    → All (λ x. p x ≡ true → P x) ws
unfolding count_where
count_where-none P p [] h = tt
count_where-none P p (x ∷ ws) h = elim (Bool-cases (p x)) [
  | inl t ↦ absurd (ground (arith, t, h))
  | inr n ↦ (λ e. absurd (cc), count_where-none P p ws (ground (arith, n, h)))
]

-- The row that an id names, among rows of one name.
only_row :
    (id : ℕ) (ws : List WorldSession) (w : WorldSession)
    → find (has_world_id id) ws ≡ some w
    → count_where (has_world_id id) ws ≤ 1
    → All (λ x. has_world_id id x ≡ true → x.host_user_id ≡ w.host_user_id) ws
unfolding find count_where
only_row id [] w e h = tt
only_row id (x ∷ ws) w e h = elim (Bool-cases (has_world_id id x)) [
  | inl t ↦
      let same : x ≡ w = ground (arith, t, e) in
      (
        λ a. ap (λ y. y.host_user_id) same,
        count_where-none _ (has_world_id id) ws (ground (arith, t, h)),
      )
  | inr n ↦ (λ a. absurd (cc), only_row id ws w (ground (arith, n, e)) (ground (arith, n, h)))
]

module _ (env : Env) (id max : ℕ) (policy : InvitePolicy) where
  abbrev reopen : List WorldSession → List WorldSession
  reopen = update_where (has_world_id id) (patched env max opened policy)

  opened_own :
      (host : ℕ) (ws : List WorldSession)
      → any (is_other_open id host) ws ≡ false
      → count_where (is_open_of host) (reopen ws) ≤ count_where (has_world_id id) ws
  unfolding any count_where update_where
  opened_own host [] h = omega arith
  opened_own host (w ∷ ws) h = (let rest = opened_own host ws in ground arith)

  opened_other :
      (host other : ℕ) (ws : List WorldSession)
      → nat_beq host other ≡ false
      → All (λ x. has_world_id id x ≡ true → x.host_user_id ≡ host) ws
      → count_where (is_open_of other) (reopen ws) ≤ count_where (is_open_of other) ws
  unfolding count_where update_where
  opened_other host other [] d a = omega arith
  opened_other host other (w ∷ ws) d a =
      (let rest = opened_other host other ws d a.1 in let own = a.0 in ground arith)

  pub reopened-IsValid :
      (ws : List WorldSession) (n : ℕ) (w : WorldSession)
      → find (has_world_id id) ws ≡ some w
      → any (is_other_open id w.host_user_id) ws ≡ false
      → (1 ≤ max) × (max ≤ env.max_players_per_world)
      → IsValid env ws n
      → IsValid env (reopen ws) n
  reopened-IsValid ws n w e free b v =
      change-IsValid env (has_world_id id) (patched env max opened policy) ws n (λ x. refl)
        (λ x a. b)
        (λ host. elim (Bool-cases (nat_beq w.host_user_id host)) [
          | inl t ↦
              let same : w.host_user_id ≡ host = ground arith in
              let own =
                opened_own host ws (ap (λ h. any (is_other_open id h) ws) (sym same) ∙ free) in
              omega (arith, own, v.unique id)
          | inr d ↦
              let others =
                opened_other w.host_user_id host ws d (only_row id ws w e (v.unique id)) in
              omega (arith, others, v.one_open host)
        ])
        v

-- A new world of a host who has none open.
fresh_count :
    (n : ℕ) (ws : List WorldSession) → All (λ w. w.id < n) ws → count_where (has_world_id n) ws ≡ 0
unfolding count_where
fresh_count n [] a = refl
fresh_count n (w ∷ ws) a = (let rest = fresh_count n ws a.1 in let lt = a.0 in ground arith)

absent_count :
    (p : WorldSession → Bool) (ws : List WorldSession) → find p ws ≡ none → count_where p ws ≡ 0
unfolding find count_where
absent_count p [] e = refl
absent_count p (w ∷ ws) e = (let rest = absent_count p ws in ground arith)

pub added-IsValid :
    (env : Env) (host max : ℕ) (ws : List WorldSession) (n : ℕ)
    → find (is_open_of host) ws ≡ none
    → (1 ≤ max) × (max ≤ env.max_players_per_world)
    → IsValid env ws n
    → IsValid env (new_world env n host max ∷ ws) (suc n)
unfolding count_where
added-IsValid env host max ws n e b v = record {
  used = (omega arith, All-map (λ w. w.id < n) (λ w. w.id < suc n) ws (λ w a. omega arith) v.used);
  unique = λ id.
      (let u = v.unique id in
        let z = fresh_count n ws v.used in
        elim (Bool-cases (nat_beq n id)) [
          | inl t ↦
              (let same : n ≡ id = ground arith in
                let z' : count_where (has_world_id id) ws ≡ 0 =
                  subst (λ k. count_where (has_world_id k) ws ≡ 0) same z in
                ground arith)
          | inr d ↦ ground arith
        ]);
  one_open = λ h.
      (let o = v.one_open h in
        let z = absent_count (is_open_of host) ws e in
        elim (Bool-cases (nat_beq host h)) [
          | inl t ↦
              (let same : host ≡ h = ground arith in
                let z' : count_where (is_open_of h) ws ≡ 0 =
                  subst (λ k. count_where (is_open_of k) ws ≡ 0) same z in
                ground arith)
          | inr d ↦ ground arith
        ]);
  bounded = (b, v.bounded);
}
