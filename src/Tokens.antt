-- ===== src/Tokens.antt =====
-- core/security.py and schemas/token.py: access and refresh tokens, CSRF tokens and hashed secrets.
-- Random values and readings of the clock are arguments. Tokens are made in `Create` and read in
-- `Decode`.
pub mod Create
pub mod Decode
pub mod Lifetimes
pub mod RoundTrip
pub mod Tests
use Prim.Native.String.{count}
use todo_api.Base.{
  ℕ, String, Bool, true, false, not, ◌&&◌, ◌||◌, ◌+◌, ◌-◌, ◌*◌, ◌/◌, ◌==◌, nat_eq, string_eq,
  Option, none, some, or_else, List, [], ◌∷◌, ◌++◌, min, ltb, leb, if◌then◌else◌,
}
use todo_api.Text.{strip, is_empty}
use todo_api.Exceptions
use todo_api.Exceptions.{Raised, app, value_error}
use todo_api.Exceptions.Auth.{AuthError, invalid_access_token, invalid_refresh_token}
use todo_api.Results.{Result, ok, err, ◌>>=◌, ◌>>◌, ensure, or_raise}
use todo_api.Config.{Settings, minutes, days}
use todo_api.Platform.{Platform, Value, text, datetime, numeric_date, Claims, claim}

pub record BaseTokenPayload : Type 0 where
  pub sub : String
  pub exp : ℕ
  pub iat : ℕ
  pub jti : String
  pub iss : String
  pub aud : String

pub record RefreshTokenPayload : Type 0 where
  pub base : BaseTokenPayload
  pub session_id : String

pub record TokenResponse : Type 0 where
  pub access_token : String
  pub refresh_token : String
  pub expires_in : ℕ

unfoldable pub hash_secret : Platform → String → String
hash_secret p value = p.sha256_hexdigest value

-- A missing text is as good as an empty one.
abbrev pub given : Option String → String
given none = String.[]
given (some s) = s

unfoldable pub verify_csrf_token : Option String → Option String → Bool
verify_csrf_token header_token cookie_token =
    if is_empty (given header_token) || is_empty (given cookie_token)
    then false
    else given header_token == given cookie_token

-- `_required`
unfoldable pub required : String → Result String
required value =
    let normalized = strip value in if is_empty normalized then err value_error else ok normalized

-- `_lifetime`
unfoldable pub lifetime : Option ℕ → ℕ → Result ℕ
lifetime custom default =
    let span = or_else custom default in if span == 0 then err value_error else ok span

unfoldable pub access_token_lifetime : Settings → Option ℕ → Result ℕ
unfolding lifetime
access_token_lifetime settings custom =
    lifetime custom (minutes settings.access_token_expire_minutes)

unfoldable pub refresh_token_lifetime : Settings → Option ℕ → Result ℕ
unfolding lifetime
refresh_token_lifetime settings custom = lifetime custom (days settings.refresh_token_expire_days)

-- `_bounded_lifetime`. The deadlines that reach it are aware of their time zone. The span that
-- remains stops at 0 here and is negative in the program; either is refused.
unfoldable pub bounded_lifetime : ℕ → ℕ → Option ℕ → Result ℕ
bounded_lifetime span issued_at none = ok span
bounded_lifetime span issued_at (some absolute_expires_at) =
    if leb absolute_expires_at issued_at
    then err value_error
    else ok (min span (absolute_expires_at - issued_at))

-- The fields of `BaseTokenPayload` with their constraints; white space is stripped from texts first, as
-- Python strips it: the separators U+001C to U+001F, which pydantic keeps, go as well.
unfoldable pub validate_base : BaseTokenPayload → Option BaseTokenPayload
validate_base c =
    let sub = strip c.sub in
    let jti = strip c.jti in
    let iss = strip c.iss in
    let aud = strip c.aud in
    if is_empty sub || ltb (count jti) 32 || is_empty iss || is_empty aud || leb c.exp c.iat
    then none
    else some (record c { sub = sub; jti = jti; iss = iss; aud = aud })

-- `RefreshTokenPayload` adds the session's identifier.
unfoldable pub validate_session_id : String → Option String
validate_session_id sid = let sid' = strip sid in if ltb (count sid') 32 then none else some sid'

-- `model_dump(by_alias=True)`
abbrev pub base_claims : BaseTokenPayload → Claims
base_claims c =
    ("sub", text c.sub)
    ∷ ("exp", datetime c.exp)
    ∷ ("iat", datetime c.iat)
    ∷ ("jti", text c.jti)
    ∷ ("iss", text c.iss)
    ∷ ("aud", text c.aud)
    ∷ []

abbrev pub access_claims : BaseTokenPayload → Claims
access_claims c = base_claims c ++ (("type", text "access") ∷ [])

abbrev pub refresh_claims : BaseTokenPayload → String → Claims
refresh_claims c sid = base_claims c ++ (("sid", text sid) ∷ ("type", text "refresh") ∷ [])
