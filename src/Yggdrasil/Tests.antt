-- ===== src/Yggdrasil/Tests.antt =====
-- The theorems of the Yggdrasil server at concrete inputs.
use loontail_minecraft_netwo.Prelude.{◌≡◌, refl, none, some, List, [], ◌∷◌, arith, inl, true, all}
use loontail_minecraft_netwo.Yggdrasil.JoinSessions.{announced}
use loontail_minecraft_netwo.Yggdrasil.JoinSessions.SingleUse.{
  Call, joins, claims, run, run_view, run-eq-view,
}
use loontail_minecraft_netwo.Yggdrasil.Uuid.{
  Text, ok, undash_uuid, dash_uuid, is_uuid_undashed, is_uuid_dashed,
}
use loontail_minecraft_netwo.Yggdrasil.Uuid.RoundTrip.{undash-dash}
use loontail_minecraft_netwo.Prelude.{ℕ, map, false, find}
use loontail_minecraft_netwo.Prelude.Int.{pos}
use loontail_minecraft_netwo.Prelude.Map.{lookup, insert, remove, retain}
use loontail_minecraft_netwo.Core.Account.{Account, Auth, AuthEnv}
use loontail_minecraft_netwo.Core.Tokens.{validate_yggdrasil, eligible_owner}
use loontail_minecraft_netwo.Yggdrasil.JoinSessions.{record_join, take_join}
use loontail_minecraft_netwo.Yggdrasil.Uuid.{to_lower}
use loontail_minecraft_netwo.Yggdrasil.Handshake.{no_content, join, has_joined, identify}
use loontail_minecraft_netwo.Yggdrasil.Handshake.Vouching as Handshake
use loontail_minecraft_netwo.Prelude.{◌↔◌, ltb, take}
use loontail_minecraft_netwo.Yggdrasil.Png.{
  skin, cape, valid, failed, bad_dimensions, too_small, validate_png,
}
use loontail_minecraft_netwo.Yggdrasil.Png.Bytes.{all-AreBytes}
use loontail_minecraft_netwo.Yggdrasil.Png.Header.{png_file, IsTexture, validate_png-IsTexture}

-- One session is claimed twice, another one too late.
abbrev calls : List Call
calls =
    joins 100 "a" 7 none
    ∷ joins 101 "b" 8 (some "10.0.0.1")
    ∷ claims 102 "a"
    ∷ claims 103 "a"
    ∷ claims 131 "b"
    ∷ []

run-eq-view_example : run calls [] ≡ run_view calls (λ id. none)
run-eq-view_example =
    run-eq-view calls 100
      (omega arith, (omega arith, (omega arith, (omega arith, (omega arith, tt)))))

run_answers : run_view calls (λ id. none) ≡ some (announced 100 7 none) ∷ none ∷ none ∷ []
unfolding run_view
run_answers = refl

abbrev undashed : Text
undashed =
    b'F' ∷ b'8' ∷ b'4' ∷ b'c' ∷ b'6' ∷ b'A' ∷ b'7' ∷ b'9' ∷ b'0' ∷ b'a' ∷ b'4' ∷ b'e' ∷ b'4' ∷ b'5'
    ∷ b'e' ∷ b'0' ∷ b'8' ∷ b'7' ∷ b'9' ∷ b'f' ∷ b'0' ∷ b'e' ∷ b'4' ∷ b'7' ∷ b'8' ∷ b'd' ∷ b'e'
    ∷ b'5' ∷ b'c' ∷ b'b' ∷ b'7' ∷ b'e' ∷ []

undash-dash_example :
    (u : Text) × (d : Text) × (undash_uuid undashed ≡ ok u)
    × (dash_uuid undashed ≡ ok d)
    × ((is_uuid_undashed u ≡ true) × (is_uuid_dashed d ≡ true))
    × ((undash_uuid d ≡ ok u) × (dash_uuid u ≡ ok d))
    × ((undash_uuid u ≡ ok u) × (dash_uuid d ≡ ok d))
unfolding is_uuid_undashed all
undash-dash_example = undash-dash undashed (inl refl)

abbrev env : ℕ → AuthEnv
env now = record {
  now = now;
  ttl = 100;
  max_per_user = pos 2;
  fresh_token = b'n' ∷ [];
  fresh_client_token = b'c' ∷ [];
  hash_token = λ t. b'#' ∷ t;
}

abbrev player : Account
player = record {
  id = 7;
  minecraft_uuid = none;
  username = b'S' ∷ b'a' ∷ b'm' ∷ [];
  normalized_username = b'a' ∷ [];
  email = none;
  password_hash = none;
  profile_uuid = some (map to_lower undashed);
  confirmed = true;
  blocked = false;
  is_admin = false;
}

abbrev auth : Auth
auth = record {
  accounts = player ∷ [];
  sessions = [];
  tokens =
      record {
        id = 1;
        user_id = 7;
        access_token_hash = b'#' ∷ b'a' ∷ [];
        client_token = b'k' ∷ [];
        issued_at = 900;
        expires_at = 1050;
      }
      ∷ [];
  next_id = 2;
}

abbrev history : List Handshake.Call
history = Handshake.joins (env 1000) auth (b'a' ∷ []) undashed "server" ∷ []

-- The game server spells the name in another case.
has_joined-Vouched_example :
    Handshake.Vouched history
      (env 1010)
      (b's' ∷ b'A' ∷ b'm' ∷ [])
      "server"
      auth
      (record { user_id = 7; profile_uuid = map to_lower undashed; username = player.username })
    × ((has_joined (env 1011) (b's' ∷ b'a' ∷ b'm' ∷ []) "server" none auth (
          Handshake.after (
            Handshake.asks (env 1010) auth (b's' ∷ b'A' ∷ b'm' ∷ []) "server" (some "10.0.0.1")
            ∷ history))).0
        ≡ no_content)
unfolding Handshake.after has_joined join validate_yggdrasil eligible_owner find undash_uuid
    is_uuid_undashed all record_join insert retain lookup remove take_join identify
has_joined-Vouched_example =
    Handshake.has_joined-Vouched history (env 1010) (env 1011) (b's' ∷ b'A' ∷ b'm' ∷ [])
      (b's' ∷ b'a' ∷ b'm' ∷ []) "server" (some "10.0.0.1") none auth auth _ refl

abbrev skin_file : Text
skin_file = png_file 64 64 (8 ∷ 6 ∷ [])

validate_png-cape_size : validate_png skin_file cape ≡ failed (bad_dimensions 64 64)
unfolding validate_png
validate_png-cape_size = refl

validate_png-short : validate_png (take 23 skin_file) skin ≡ failed too_small
unfolding validate_png
validate_png-short = refl

bytes_of_skin : all (λ b. ltb b 256) skin_file ≡ true
unfolding all
bytes_of_skin = refl

validate_png-IsTexture_example :
    (validate_png skin_file skin ≡ valid 64 64) ↔ IsTexture skin 64 64 skin_file
validate_png-IsTexture_example =
    validate_png-IsTexture skin 64 64 skin_file (all-AreBytes skin_file bytes_of_skin)
