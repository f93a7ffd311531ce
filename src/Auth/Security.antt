-- ===== src/Auth/Security.antt =====
-- hub/app/core/security.py. bcrypt, jwt and Pillow are libraries and hashlib and secrets give values
-- without a definition to unfold: they are a record of functions here, with the draws of one call.
use Prim.Native.String.{◌++◌ as append}
use ampla.Shared.{ℕ, zero, suc, ◌+◌, ◌*◌, ◌%◌, String, Bool, false, Option, none, some}
use ampla.Text.{show_int, parse_int}
use ampla.Models.{UserId, Time, Bytes}
use ampla.Hub.{second}

-- The claims of a token; `sub` may be missing in one that comes from outside.
pub record Payload : Type 0 where
  pub sub : Option String
  pub iat : Time
  pub exp : Time

pub record Primitives : Type 0 where
  -- None stands for ValueError.
  pub checkpw : String → String → Option Bool
  -- with the salt of this call
  pub hashpw : String → String
  pub sha256 : String → String
  pub token_hex : String
  pub token_urlsafe : String
  -- the draws of `secrets.choice`, as positions in the alphabet
  pub choice : ℕ → ℕ
  pub jwt_encode : Payload → String → String
  -- None stands for InvalidTokenError, which an expired token raises too.
  pub jwt_decode : String → String → Option Payload
  -- `str.lower` and `str.upper`, which follow the tables of Unicode
  pub to_lower : String → String
  pub to_upper : String → String
  -- `decode_data_url` and `normalize_avatar` together; None stands for InvalidInputError.
  pub normalized_avatar : String → Option Bytes

-- hub/app/core/config.py
pub record AuthSettings : Type 0 where
  pub jwt_secret : String
  pub jwt_expires_days : ℕ
  pub invite_expires_hours : ℕ
  pub login_max_attempts : ℕ
  pub login_lockout_base_secs : ℕ

abbrev pub hash_password : Primitives → String → String
hash_password p password = p.hashpw password

abbrev or_false : Option Bool → Bool
or_false none = false
or_false (some b) = b

abbrev pub verify_password : Primitives → String → String → Bool
verify_password p password password_hash = or_false (p.checkpw password password_hash)

abbrev pub generate_agent_key : Primitives → String
generate_agent_key p = append "amp_" p.token_hex

abbrev pub hash_agent_key : Primitives → String → String
hash_agent_key p key = p.sha256 key

-- The character at a position.
at_position : String → ℕ → String
at_position String.[] k = String.[]
at_position (String.◌∷◌ c s) zero = String.◌∷◌ c String.[]
at_position (String.◌∷◌ c s) (suc k) = at_position s k

-- _INVITE_ALPHABET
abbrev alphabet : String
alphabet = "ABCDEFGHJKLMNPQRSTUVWXYZ23456789"

letter : Primitives → ℕ → String
unfolding at_position
letter p i = at_position alphabet (p.choice i % 32)

four_letters : Primitives → ℕ → String
unfolding letter
four_letters p i =
    append (letter p i) (append (letter p (i + 1)) (append (letter p (i + 2)) (letter p (i + 3))))

unfoldable pub generate_invite_code : Primitives → String
unfolding four_letters
generate_invite_code p = append "AMP-" (
    append (four_letters p 0) (
      append "-" (
        append (four_letters p 4)
          (append "-" (append (four_letters p 8) (append "-" (four_letters p 12)))))))

abbrev pub generate_reset_token : Primitives → String
generate_reset_token p = p.token_urlsafe

abbrev pub hash_reset_token : Primitives → String → String
hash_reset_token p token = p.sha256 token

abbrev day : ℕ
day = 86_400 * second

unfoldable pub create_jwt : Primitives → UserId → String → ℕ → Time → String
create_jwt p user_id secret expires_days now =
    p.jwt_encode
      (record { sub = some (show_int user_id); iat = now; exp = now + expires_days * day }) secret

-- `int(payload["sub"])`, where KeyError and ValueError give None too
abbrev subject : Option String → Option UserId
subject none = none
subject (some s) = parse_int s

abbrev pub subject_of : Option Payload → Option UserId
subject_of none = none
subject_of (some payload) = subject payload.sub

unfoldable pub decode_jwt : Primitives → String → String → Option UserId
decode_jwt p token secret = subject_of (p.jwt_decode token secret)
