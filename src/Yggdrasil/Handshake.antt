-- ===== src/Yggdrasil/Handshake.antt =====
-- The game handshake: the handlers of crates/yggdrasil/src/lib.rs over the token pairs and the join
-- sessions, and the errors of crates/yggdrasil/src/error.rs. The signed profile document is built by
-- profile.rs, from the identity that a handler answers here.
pub mod Vouching
use Prim.Native.String.{String}
use mathlib.Core.Bool.{Bool, true, false, ◌&&◌, not}
use loontail_minecraft_netwo.Prelude.{
  ℕ, Option, none, some, List, [], ◌∷◌, map, find, if◌then◌else◌, ◌==◌,
}
use loontail_minecraft_netwo.Prelude.Text.{string_eq, bytes_eq, bytes_beq}
use loontail_minecraft_netwo.Network.Effect.{
  AppError, bad_request, not_found, conflict, unauthorized, forbidden, too_many_requests, database,
  internal,
}
use loontail_minecraft_netwo.Server.Ip.{trim}
use loontail_minecraft_netwo.Core.Account.{Text, Account, Auth, AuthEnv, Result, ok, err}
use loontail_minecraft_netwo.Core.Tokens.{
  YggdrasilTokens, has_account_id, validate_yggdrasil, refresh_yggdrasil, invalidate_yggdrasil,
}
use loontail_minecraft_netwo.Yggdrasil.Uuid
use loontail_minecraft_netwo.Yggdrasil.JoinSessions.{JoinSession, Sessions, record_join, take_join}

pub data YggError : Type 0 where
  invalid_request refused missing failed : YggError

abbrev pub ygg_error : AppError → YggError
ygg_error (bad_request m) = invalid_request
ygg_error unauthorized = refused
ygg_error forbidden = refused
ygg_error (not_found m) = missing
ygg_error (conflict m) = invalid_request
ygg_error too_many_requests = refused
ygg_error database = failed
ygg_error internal = failed

abbrev pub status_code : YggError → ℕ
status_code invalid_request = 400
status_code refused = 403
status_code missing = 404
status_code failed = 500

pub record ProfileIdentity : Type 0 where
  pub user_id : ℕ
  pub profile_uuid : Text
  pub username : Text

-- An answer: a document, `204 No Content`, or an error.
pub data Answer (A : Type 0) : Type 0 where
  served : A → Answer A
  no_content : Answer A
  failed_with : YggError → Answer A

pub record SessionDocument : Type 0 where
  pub access_token : Text
  pub client_token : Text
  pub profile_id : Text
  pub profile_name : Text
  pub user : Option ℕ

unfoldable pub session_document : Account → YggdrasilTokens → Bool → Answer SessionDocument
session_document user tokens request_user = elim user.profile_uuid [
  | none ↦ failed_with refused
  | some uuid ↦ served (record {
    access_token = tokens.access_token;
    client_token = tokens.client_token;
    profile_id = uuid;
    profile_name = user.username;
    user = if request_user then some user.id else none;
  })
]

-- The id in `selectedProfile`: absent, not a string, or a text.
pub data SelectedId : Type 0 where
  absent not_text : SelectedId
  text : Text → SelectedId

abbrev pub names_profile : Text → SelectedId → Bool
names_profile uuid absent = true
names_profile uuid not_text = false
names_profile uuid (text id) = id == uuid

unfoldable pub refresh :
    AuthEnv → Text → Option Text → SelectedId → Bool → Auth → Answer SessionDocument × Auth
unfolding refresh_yggdrasil session_document
refresh env access client selected request_user s =
    let rotated = refresh_yggdrasil env access client s in
    elim rotated.0 [
      | err e ↦ (failed_with (ygg_error e), rotated.1)
      | ok (user, tokens) ↦ elim user.profile_uuid [
        | none ↦ (failed_with refused, rotated.1)
        | some uuid ↦
            if names_profile uuid selected
            then (session_document user tokens request_user, rotated.1)
            else (failed_with refused, rotated.1)
      ]
    ]

unfoldable pub validate : AuthEnv → Text → Option Text → Auth → Answer (Unit {0})
unfolding validate_yggdrasil
validate env access client s = elim (validate_yggdrasil env access client s) [
  | err e ↦ failed_with (ygg_error e)
  | ok user ↦ no_content
]

unfoldable pub invalidate : AuthEnv → Text → Option Text → Auth → Answer (Unit {0}) × Auth
unfolding invalidate_yggdrasil
invalidate env access client s = (no_content, (invalidate_yggdrasil env access client s).1)

abbrev pub is_claimed : Text → Uuid.UuidResult → Bool
is_claimed uuid (Uuid.ok claimed) = claimed == uuid
is_claimed uuid (Uuid.invalid value) = false

unfoldable pub join :
    AuthEnv → Text → Text → String → Auth → Sessions → Answer (Unit {0}) × Sessions
unfolding validate_yggdrasil record_join Uuid.undash_uuid
join env access selected_profile server_id s m = elim (validate_yggdrasil env access none s) [
  | err e ↦ (failed_with (ygg_error e), m)
  | ok user ↦ elim user.profile_uuid [
    | none ↦ (failed_with refused, m)
    | some uuid ↦
        if is_claimed uuid (Uuid.undash_uuid selected_profile)
        then (no_content, record_join env.now server_id user.id none m)
        else (failed_with refused, m)
  ]
]

-- Addresses are compared where both are present.
abbrev pub same_ip : Option String → Option String → Bool
same_ip none queried = true
same_ip (some recorded) none = true
same_ip (some recorded) (some queried) = recorded == queried

-- `eq_ignore_ascii_case`
abbrev pub same_name : Text → Text → Bool
same_name a b = map Uuid.to_lower a == map Uuid.to_lower b

unfoldable pub identify : Account → Text → Answer ProfileIdentity
unfolding trim
identify user username =
    if same_name user.username (trim username)
    then elim user.profile_uuid [
      | none ↦ failed_with refused
      | some uuid ↦
          served (record { user_id = user.id; profile_uuid = uuid; username = user.username })
    ]
    else no_content

-- `load_user` of crates/core/src/identity.rs answers 404 for a user that is gone.
unfoldable pub has_joined :
    AuthEnv → Text → String → Option String → Auth → Sessions → Answer ProfileIdentity × Sessions
unfolding take_join identify
has_joined env username server_id ip s m =
    let taken = take_join env.now server_id m in
    elim taken.0 [
      | none ↦ (no_content, taken.1)
      | some session ↦
          if same_ip session.ip ip
          then elim (find (has_account_id session.user_id) s.accounts) [
            | none ↦ (failed_with missing, taken.1)
            | some user ↦ (identify user username, taken.1)
          ]
          else (no_content, taken.1)
    ]
