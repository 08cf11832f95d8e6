-- ===== src/Tokens/Decode.antt =====
-- core/security.py and schemas/token.py: how tokens are read.
use todo_api.Base.{
  ℕ, String, Bool, true, false, ◌&&◌, ◌||◌, ◌==◌, string_eq, Option, none, some, List, [], ◌∷◌,
  ◌++◌, if◌then◌else◌,
}
use todo_api.Exceptions
use todo_api.Exceptions.{Raised, app}
use todo_api.Exceptions.Auth.{AuthError, invalid_access_token, invalid_refresh_token}
use todo_api.Results.{Result, or_raise}
use todo_api.Config.{Settings, seconds}
use todo_api.Platform.{Platform, Value, text, datetime, numeric_date, Claims, claim}
use todo_api.Tokens.{BaseTokenPayload, RefreshTokenPayload, validate_base, validate_session_id}

abbrev pub access_token_claims : List String
access_token_claims = "sub" ∷ "exp" ∷ "iat" ∷ "jti" ∷ "iss" ∷ "aud" ∷ "type" ∷ []

abbrev pub refresh_token_claims : List String
refresh_token_claims = access_token_claims ++ ("sid" ∷ [])

-- A chain of fields each of which may be absent or of another type.
infixl 5 ◌>>=◌
abbrev ◌>>=◌ : {A B : Type 0} → Option A → (A → Option B) → Option B
none >>= f = none
some a >>= f = f a

abbrev pub text_of : Option Value → Option String
text_of (some (text s)) = some s
text_of _ = none

-- A number of seconds, as a date and time.
abbrev pub datetime_of : Option Value → Option ℕ
datetime_of (some (numeric_date n)) = some (seconds n)
datetime_of (some (datetime t)) = some t
datetime_of _ = none

-- `populate_by_name`: the alias or, without it, the field's own name.
abbrev pub either_claim : String → String → Claims → Option Value
either_claim alias name c = elim (claim alias c) [ none ↦ claim name c | some v ↦ some v ]

abbrev is_one_of : String → List String → Bool
is_one_of k [] = false
is_one_of k (j ∷ js) = k == j || is_one_of k js

-- `extra="forbid"`
abbrev has_only : List String → Claims → Bool
has_only names [] = true
has_only names ((k, v) ∷ c) = is_one_of k names && has_only names c

abbrev pub if_literal : String → Option String → Option (Unit {0})
if_literal s none = none
if_literal s (some t) = if t == s then some tt else none

abbrev base_names : List String
base_names = "sub" ∷ "exp" ∷ "iat" ∷ "jti" ∷ "iss" ∷ "aud" ∷ "type" ∷ "token_type" ∷ []

abbrev pub guarded : {A : Type 0} → Bool → Option A → Option A
guarded b o = if b then o else none

-- The fields of `BaseTokenPayload` and the literal `token_type`.
unfoldable pub base_payload : String → Claims → Option BaseTokenPayload
base_payload token_type c = do
  sub ← text_of (claim "sub" c)
  exp ← datetime_of (claim "exp" c)
  iat ← datetime_of (claim "iat" c)
  jti ← text_of (claim "jti" c)
  iss ← text_of (claim "iss" c)
  aud ← text_of (claim "aud" c)
  payload ←
      validate_base (record { sub = sub; exp = exp; iat = iat; jti = jti; iss = iss; aud = aud })
  literal ← if_literal token_type (text_of (either_claim "type" "token_type" c))
  some payload

-- `AccessTokenPayload.model_validate`; `none` is a `ValidationError`.
unfoldable pub access_payload : Claims → Option BaseTokenPayload
unfolding base_payload
access_payload c = guarded (has_only base_names c) (base_payload "access" c)

-- `RefreshTokenPayload.model_validate`
unfoldable pub refresh_payload : Claims → Option RefreshTokenPayload
unfolding base_payload
refresh_payload c = guarded (has_only ("sid" ∷ "session_id" ∷ base_names) c) (do
  base ← base_payload "refresh" c
  sid ← text_of (either_claim "sid" "session_id" c)
  session_id ← validate_session_id sid
  some (record { base = base; session_id = session_id }))

-- `_decode`, over the model that validates the claims.
unfoldable pub decode :
    {A : Type 0}
    → Platform
    → Settings
    → String
    → String
    → List String
    → (Claims → Option A)
    → AuthError
    → ℕ
    → Result A
decode p settings token audience required payload_model error_type now =
    or_raise
      (do
        decoded ←
            p.jwt_decode token settings.secret_key settings.jwt_algorithm settings.jwt_issuer
              audience required now
        payload_model decoded)
      (app (Exceptions.auth error_type))

unfoldable pub decode_access_token : Platform → Settings → String → ℕ → Result BaseTokenPayload
unfolding decode access_payload
decode_access_token p settings token now =
    decode p settings token settings.jwt_access_audience access_token_claims access_payload
      invalid_access_token now

unfoldable pub decode_refresh_token : Platform → Settings → String → ℕ → Result RefreshTokenPayload
unfolding decode refresh_payload
decode_refresh_token p settings token now =
    decode p settings token settings.jwt_refresh_audience refresh_token_claims refresh_payload
      invalid_refresh_token now
