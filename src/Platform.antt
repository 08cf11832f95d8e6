-- ===== src/Platform.antt =====
-- What the program takes from outside: SHA-256, JSON web tokens (PyJWT), password hashes (pwdlib),
-- the case mappings of Unicode, the check of hosts in URLs and percent-encoding. They are parameters; `VerifiesClaims` states the behaviour that PyJWT
-- documents for a token that it made itself.
pub mod Sample
use todo_api.Base.{
  ℕ, String, Bool, true, false, ◌&&◌, ◌≡◌, ◌/◌, ◌*◌, ◌==◌, nat_eq, string_eq, Option, none, some,
  List, [], ◌∷◌, map, ltb, leb, is_some, if◌then◌else◌,
}

-- A claim's value: a text, a date and time, or a number of seconds since 1970.
pub data Value : Type 0 where
  text : String → Value
  datetime : ℕ → Value
  numeric_date : ℕ → Value

abbrev pub Claims : Type 0
Claims = List (String × Value)

pub record Platform : Type 0 where
  -- `sha256(value.encode()).hexdigest()`
  pub sha256_hexdigest : String → String
  -- `base64.urlsafe_b64encode(sha256(value).digest())`
  pub urlsafe_sha256 : String → String
  -- `jwt.encode(claims, key, algorithm)`
  pub jwt_encode : Claims → String → String → String
  -- `jwt.decode(token, key, algorithm, issuer, audience, required)` at a time; `none` is its
  -- `InvalidTokenError`.
  pub jwt_decode : String → String → String → String → String → List String → ℕ → Option Claims
  -- `PasswordHash.hash`; `none` is its `HashingError`.
  pub hash : String → Option String
  -- `PasswordHash.verify_and_update`; `none` is a `HashingError` or an `UnknownHashError`.
  pub verify_and_update : String → String → Option (Bool × Option String)
  -- `PasswordHash.verify`; `none` is its `UnknownHashError`.
  pub verify : String → String → Option Bool
  -- `str.casefold`, `str.lower` and `str.upper`
  pub casefold : String → String
  pub lower : String → String
  pub upper : String → String
  -- Whether `urlsplit` takes a network location: brackets that match and hold an IP address, and no
  -- character that Unicode normalization turns into one of a URL's delimiters.
  pub accepts_netloc : String → Bool
  -- `parse_qsl(query, keep_blank_values=True)` and `urlencode`
  pub parse_qsl : String → List (String × String)
  pub urlencode : List (String × String) → String

abbrev pub claim : String → Claims → Option Value
claim k [] = none
claim k ((j, v) ∷ c) = if j == k then some v else claim k c

-- `jwt.encode` writes a date and time in whole seconds.
abbrev pub in_seconds : Value → Value
in_seconds (text s) = text s
in_seconds (datetime t) = numeric_date (t / 1000000)
in_seconds (numeric_date n) = numeric_date n

abbrev pub encoded : Claims → Claims
encoded = map (λ (c : String × Value). (c.0, in_seconds c.1))

abbrev has_text : String → Option Value → Bool
has_text s (some (text t)) = t == s
has_text s _ = false

abbrev is_later : ℕ → Option Value → Bool
is_later now (some (numeric_date n)) = ltb now (n * 1000000)
is_later now _ = false

abbrev is_not_later : ℕ → Option Value → Bool
is_not_later now (some (numeric_date n)) = leb (n * 1000000) now
is_not_later now _ = false

abbrev has_all : List String → Claims → Bool
has_all [] c = true
has_all (k ∷ ks) c = is_some (claim k c) && has_all ks c

-- The checks of `jwt.decode`: every required claim, the issuer, the one audience, an expiry that is
-- to come and a time of issue that is not.
unfoldable pub verifies : String → String → List String → ℕ → Claims → Bool
verifies issuer audience required now c =
    has_all required c
    && has_text issuer (claim "iss" c)
    && has_text audience (claim "aud" c)
    && is_later now (claim "exp" c)
    && is_not_later now (claim "iat" c)

-- A token that was made with the same key and algorithm decodes to its claims if they verify, and
-- is refused if not.
pub record VerifiesClaims (p : Platform) : Type 0 where
  pub decode-encode :
      (c : Claims) (key algorithm issuer audience : String) (required : List String) (now : ℕ)
      → p.jwt_decode (p.jwt_encode c key algorithm) key algorithm issuer audience required now
        ≡ (if verifies issuer audience required now (encoded c) then some (encoded c) else none)
