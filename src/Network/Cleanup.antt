-- ===== src/Network/Cleanup.antt =====
-- crates/network/src/cleanup.rs: the hourly cleanup of the join tables and of the event log. A time
-- is a number of seconds; the days of retention are not negative.
pub mod Draining
use mathlib.Core.Bool.{Bool, true, false, ◌&&◌, ◌||◌, not}
use loontail_minecraft_netwo.Prelude.{
  ℕ, zero, suc, ◌+◌, ◌*◌, Option, none, some, List, [], ◌∷◌, leb, ltb, nat_beq, if◌then◌else◌, any,
  keep, update_where, count_where, ◌==◌,
}
use loontail_minecraft_netwo.Network.Store.{
  RequestStatus, pending, pending_approval, accepted, declined, revoked, expired, status_eq,
  JoinRequest, WorldInvite, JoinTicket, RelaySession, Net, Env,
}

-- The columns of `user_events` that the cleanup reads.
pub record UserEvent : Type 0 where
  pub id : ℕ
  pub created_at : ℕ

pub record CleanupCounts : Type 0 where
  pub expired_join_requests : ℕ
  pub expired_invites : ℕ
  pub deleted_join_tickets : ℕ
  pub deleted_terminal_join_requests : ℕ
  pub deleted_terminal_invites : ℕ
  pub deleted_user_events : ℕ

abbrev pub total : CleanupCounts → ℕ
total c =
    c.expired_join_requests + c.expired_invites + c.deleted_join_tickets
    + c.deleted_terminal_join_requests + c.deleted_terminal_invites + c.deleted_user_events

abbrev pub retention : ℕ → ℕ
retention days = days * 86400

-- `time < now() - make_interval(days => …)`
abbrev pub is_past : Env → ℕ → ℕ → Bool
is_past env days time = ltb (time + retention days) env.now

abbrev pub is_lapsed_request : Env → JoinRequest → Bool
is_lapsed_request env r = (r.status == pending) && leb r.expires_at env.now

abbrev pub is_lapsed_invite : Env → WorldInvite → Bool
is_lapsed_invite env i =
    ((i.status == pending) || (i.status == pending_approval)) && leb i.expires_at env.now

abbrev pub was_consumed : Option ℕ → Bool
was_consumed none = false
was_consumed (some time) = true

abbrev pub is_spent_ticket : Env → ℕ → JoinTicket → Bool
is_spent_ticket env days t =
    is_past env days t.created_at && (was_consumed t.consumed_at || leb t.expires_at env.now)

-- `TERMINAL_JOIN_REQUEST` and `TERMINAL_INVITE`
abbrev pub is_terminal_request : RequestStatus → Bool
is_terminal_request status = (status == accepted) || ((status == declined) || (status == expired))

abbrev pub is_terminal_invite : RequestStatus → Bool
is_terminal_invite status =
    (status == accepted) || ((status == declined) || ((status == revoked) || (status == expired)))

abbrev pub is_old_request : Env → ℕ → JoinRequest → Bool
is_old_request env days r = is_terminal_request r.status && is_past env days r.updated_at

abbrev pub is_old_invite : Env → ℕ → WorldInvite → Bool
is_old_invite env days i = is_terminal_invite i.status && is_past env days i.updated_at

abbrev pub is_aged : Env → ℕ → UserEvent → Bool
is_aged env days e = is_past env days e.created_at

abbrev pub earlier : ℕ → Option ℕ → Option ℕ
earlier time none = some time
earlier time (some other) = if leb time other then some time else some other

-- The first time of the aged rows.
unfoldable pub oldest : Env → ℕ → List UserEvent → Option ℕ
oldest env days [] = none
oldest env days (e ∷ es) =
    let rest = oldest env days es in if is_aged env days e then earlier e.created_at rest else rest

-- Remove one row of this time.
unfoldable pub remove_one : ℕ → List UserEvent → List UserEvent
remove_one time [] = []
remove_one time (e ∷ es) =
    let rest = remove_one time es in if nat_beq e.created_at time then es else e ∷ rest

-- The DELETE of a chunk: the oldest aged rows, no more of them than the limit, which the subquery
-- names by their primary key. It answers how many it removed.
unfoldable pub delete_chunk : Env → ℕ → ℕ → List UserEvent → ℕ × List UserEvent
unfolding oldest remove_one
delete_chunk env days zero es = (0, es)
delete_chunk env days (suc n) es = elim (oldest env days es) [
  | none ↦ (0, es)
  | some time ↦ (let rest = delete_chunk env days n (remove_one time es) in (suc rest.0, rest.1))
]

abbrev pub user_event_delete_chunk : ℕ
user_event_delete_chunk = 50000

-- The loop, on fuel; `deleted` is the accumulator.
unfoldable pub drain : ℕ → Env → ℕ → ℕ → ℕ → List UserEvent → Option (ℕ × List UserEvent)
unfolding delete_chunk
drain zero env days chunk deleted es = none
drain (suc fuel) env days chunk deleted es =
    let removed = delete_chunk env days chunk es in
    let rest = drain fuel env days chunk (deleted + removed.0) removed.1 in
    if ltb removed.0 chunk then some (deleted + removed.0, removed.1) else rest

unfoldable pub delete_aged_user_events_in_chunks :
    ℕ → Env → ℕ → ℕ → List UserEvent → Option (ℕ × List UserEvent)
unfolding drain
delete_aged_user_events_in_chunks fuel env days chunk es = drain fuel env days chunk 0 es

abbrev pub expire_request : Env → JoinRequest → JoinRequest
expire_request env r = record r { status = expired; updated_at = env.now }

abbrev pub expire_invite : Env → WorldInvite → WorldInvite
expire_invite env i = record i { status = expired; updated_at = env.now }

-- `relay_sessions.join_ticket_id … ON DELETE SET NULL`
abbrev pub loses_ticket : Env → ℕ → List JoinTicket → RelaySession → Bool
loses_ticket env days tickets r = elim r.join_ticket_id [
  | none ↦ false
  | some id ↦ any (λ t. nat_beq t.id id && is_spent_ticket env days t) tickets
]

abbrev pub without_ticket : RelaySession → RelaySession
without_ticket r = record r { join_ticket_id = none }

-- The statements before the event log, in their order.
unfoldable pub cleanup_tables : Env → ℕ → Net → Net
cleanup_tables env days s = record s {
  join_requests =
      keep (λ r. not (is_old_request env days r))
        (update_where (is_lapsed_request env) (expire_request env) s.join_requests);
  invites =
      keep (λ i. not (is_old_invite env days i))
        (update_where (is_lapsed_invite env) (expire_invite env) s.invites);
  tickets = keep (λ t. not (is_spent_ticket env days t)) s.tickets;
  relays = update_where (loses_ticket env days s.tickets) without_ticket s.relays;
}

unfoldable pub cleanup_stale_join_state :
    ℕ → Env → ℕ → Net → List UserEvent → Option (CleanupCounts × (Net × List UserEvent))
unfolding cleanup_tables delete_aged_user_events_in_chunks
cleanup_stale_join_state fuel env days s events =
    elim (delete_aged_user_events_in_chunks fuel env days user_event_delete_chunk events) [
      | none ↦ none
      | some (deleted, left) ↦ some (
        record {
          expired_join_requests = count_where (is_lapsed_request env) s.join_requests;
          expired_invites = count_where (is_lapsed_invite env) s.invites;
          deleted_join_tickets = count_where (is_spent_ticket env days) s.tickets;
          deleted_terminal_join_requests =
              count_where (is_old_request env days)
                (update_where (is_lapsed_request env) (expire_request env) s.join_requests);
          deleted_terminal_invites =
              count_where (is_old_invite env days)
                (update_where (is_lapsed_invite env) (expire_invite env) s.invites);
          deleted_user_events = deleted;
        },
        (cleanup_tables env days s, left),
      )
    ]
