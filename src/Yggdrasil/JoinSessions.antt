-- ===== src/Yggdrasil/JoinSessions.antt =====
-- crates/yggdrasil/src/join_sessions.rs: a join is announced under a server id, and claimed once. A
-- time is a number of seconds; each call reads the clock once.
pub mod SingleUse
use Prim.Native.String.{String}
use mathlib.Core.Bool.{Bool, true, false, not}
use loontail_minecraft_netwo.Prelude.{ℕ, ◌+◌, Option, none, some, List, leb, if◌then◌else◌}
use loontail_minecraft_netwo.Prelude.Map.{lookup, insert, remove, retain}
use loontail_minecraft_netwo.Prelude.Text.{string_eq}

abbrev pub join_session_ttl_seconds : ℕ
join_session_ttl_seconds = 30

pub record JoinSession : Type 0 where
  pub user_id : ℕ
  pub ip : Option String
  pub expires_at : ℕ

abbrev pub is_expired : ℕ → JoinSession → Bool
is_expired now s = leb s.expires_at now

abbrev pub Sessions : Type 0
Sessions = List (String × JoinSession)

abbrev pub sweep : ℕ → Sessions → Sessions
sweep now m = retain (λ id s. not (is_expired now s)) m

abbrev pub announced : ℕ → ℕ → Option String → JoinSession
announced now user ip = record {
  user_id = user;
  ip = ip;
  expires_at = now + join_session_ttl_seconds;
}

unfoldable pub record_join : ℕ → String → ℕ → Option String → Sessions → Sessions
record_join now server_id user ip m = insert server_id (announced now user ip) (sweep now m)

unfoldable pub take_join : ℕ → String → Sessions → Option JoinSession × Sessions
take_join now server_id m =
    let swept = sweep now m in
    elim (lookup server_id swept) [
      | none ↦ (none, swept)
      | some s ↦ (if is_expired now s then none else some s, remove server_id swept)
    ]
