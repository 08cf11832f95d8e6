-- ===== src/Tokens/RoundTrip.antt =====
-- What is read back from a token is what it was made of, and a token of one kind is never accepted
-- as one of the other kind.
use todo_api.Base.{
  ℕ, String, ◌≡◌, ◌≤◌, ◌<◌, ◌+◌, ◌/◌, ◌∙◌, ap, refl, arith, Option, none, some, true, nat_eq,
  string_eq, List, Option-cases, Bool-cases, inl, inr, eq_iff,
}
use todo_api.Text.{strip}
use todo_api.Text.Strip.{strip_idem}
use todo_api.Exceptions
use todo_api.Exceptions.{app, value_error}
use todo_api.Exceptions.Auth.{AuthError, invalid_access_token}
use todo_api.Results.{ok, err}
use todo_api.Config.{Settings, seconds}
use todo_api.Platform.{Platform, VerifiesClaims, verifies, encoded, Claims}
use todo_api.Tokens.{
  BaseTokenPayload, RefreshTokenPayload, validate_base, validate_session_id, required,
  access_claims, refresh_claims,
}
use todo_api.Tokens.Create.{encode, create_refresh_token}
use todo_api.Tokens.Decode.{
  access_payload, refresh_payload, decode, decode_access_token, decode_refresh_token,
  access_token_claims, refresh_token_claims,
}

-- A time as a token carries it.
abbrev pub whole_seconds : ℕ → ℕ
whole_seconds t = seconds (t / 1000000)

abbrev in_whole_seconds : BaseTokenPayload → BaseTokenPayload
in_whole_seconds c = record c { exp = whole_seconds c.exp; iat = whole_seconds c.iat }

-- Validation leaves what it has produced as it is.
validate_base_again :
    (c0 c : BaseTokenPayload)
    → validate_base c0 ≡ some c
    → whole_seconds c.iat < whole_seconds c.exp
    → validate_base (in_whole_seconds c) ≡ some (in_whole_seconds c)
unfolding validate_base
validate_base_again c0 c h lt =
    ground (arith, strip_idem c0.sub, strip_idem c0.jti, strip_idem c0.iss, strip_idem c0.aud)

validate_session_id_again :
    (s0 s : String) → validate_session_id s0 ≡ some s → validate_session_id s ≡ some s
unfolding validate_session_id
validate_session_id_again s0 s h = ground (arith, strip_idem s0)

refresh_payload-encoded :
    (c b : BaseTokenPayload) (sid s : String)
    → validate_base (in_whole_seconds c) ≡ some b
    → validate_session_id sid ≡ some s
    → refresh_payload (encoded (refresh_claims c sid)) ≡ some (record { base = b; session_id = s })
unfolding refresh_payload
refresh_payload-encoded c b sid s h k = rw (h, k)

access_payload-refresh :
    (c : BaseTokenPayload) (sid : String) → access_payload (encoded (refresh_claims c sid)) ≡ none
unfolding access_payload
access_payload-refresh c sid = refl

refresh_payload-access : (c : BaseTokenPayload) → refresh_payload (encoded (access_claims c)) ≡ none
unfolding refresh_payload
refresh_payload-access c = elim (Option-cases (validate_base (in_whole_seconds c))) [
  | inl e ↦ rw e
  | inr (b, e) ↦ rw e
]

abbrev refresh_fields : Settings → String → String → ℕ → ℕ → BaseTokenPayload
refresh_fields settings subject jti span issued_at = record {
  sub = strip subject;
  exp = issued_at + span;
  iat = issued_at;
  jti = jti;
  iss = settings.jwt_issuer;
  aud = settings.jwt_refresh_audience;
}

validate_base-fields :
    (c0 c : BaseTokenPayload)
    → validate_base c0 ≡ some c
    → (c.sub ≡ strip c0.sub)
      × (c.exp ≡ c0.exp)
      × (c.iat ≡ c0.iat)
      × (c.iss ≡ strip c0.iss)
      × (c.aud ≡ strip c0.aud)
unfolding validate_base
validate_base-fields c0 c h = ground arith

-- What `create_refresh_token` has put into a token.
record MadeRefreshToken (p : Platform) (settings : Settings) (subject sid jti token : String)
    (span issued_at : ℕ) : Type 0 where
  payload : BaseTokenPayload
  session_id : String
  token_lem : token ≡ encode p settings (refresh_claims payload session_id)
  valid : validate_base (refresh_fields settings subject jti span issued_at) ≡ some payload
  sid_lem : validate_session_id (strip sid) ≡ some session_id

create_refresh_token-made :
    (p : Platform) (settings : Settings) (subject sid jti token : String) (span issued_at : ℕ)
    → create_refresh_token p settings subject sid (some span) issued_at jti ≡ ok token
    → MadeRefreshToken p settings subject sid jti token span issued_at
unfolding create_refresh_token
create_refresh_token-made p settings subject sid jti token span issued_at h =
    elim (Option-cases (validate_base (refresh_fields settings subject jti span issued_at))) [
      | inl invalid ↦ absurd (ground arith)
      | inr (payload, e) ↦ elim (Option-cases (validate_session_id (strip sid))) [
        | inl short ↦ absurd (ground arith)
        | inr (session_id, k) ↦ record {
          payload = payload;
          session_id = session_id;
          token_lem = ground arith;
          valid = e;
          sid_lem = k;
        }
      ]
    ]

verifies-refresh :
    (c : BaseTokenPayload) (sid issuer audience : String) (now : ℕ)
    → c.iss ≡ issuer
    → c.aud ≡ audience
    → now < whole_seconds c.exp
    → whole_seconds c.iat ≤ now
    → verifies issuer audience refresh_token_claims now (encoded (refresh_claims c sid)) ≡ true
unfolding verifies
verifies-refresh c sid issuer audience now i a later earlier =
    ground (arith, eq_iff c.iss issuer, eq_iff c.aud audience)

validate_session_id-field : (s0 s : String) → validate_session_id s0 ≡ some s → s ≡ strip s0
unfolding validate_session_id
validate_session_id-field s0 s h = ground arith

decode_refresh_token-encode :
    (p : Platform) (settings : Settings) (now : ℕ) (c : BaseTokenPayload) (sid : String)
    {r : RefreshTokenPayload}
    → VerifiesClaims p
    → verifies settings.jwt_issuer settings.jwt_refresh_audience refresh_token_claims now
        (encoded (refresh_claims c sid))
      ≡ true
    → refresh_payload (encoded (refresh_claims c sid)) ≡ some r
    → decode_refresh_token p settings (encode p settings (refresh_claims c sid)) now ≡ ok r
unfolding decode_refresh_token decode encode
decode_refresh_token-encode p settings now c sid jwt fits body = rw (jwt.decode-encode, fits, body)

-- A token whose claims do not fit the payload model is refused, whether or not it verifies.
refused :
    {A : Type 0} (p : Platform) (settings : Settings) (model : Claims → Option A) (e : AuthError)
    (audience : String) (required : List String) (now : ℕ) (c : Claims)
    → VerifiesClaims p
    → model (encoded c) ≡ none
    → decode p settings (encode p settings c) audience required model e now
      ≡ err (app (Exceptions.auth e))
unfolding decode encode
refused p settings model e audience required now c jwt fails =
    elim (Bool-cases (verifies settings.jwt_issuer audience required now (encoded c))) [
      | inl fits ↦ rw (jwt.decode-encode, fits, fails)
      | inr unfit ↦ rw (jwt.decode-encode, unfit)
    ]

-- With a JWT library that verifies as documented, a refresh token that was created is decoded, at any
-- time from its issue until its expiry in whole seconds, to its subject, its session and that expiry.
-- The issuer and the audience are set with no white space at their ends, as the payload strips them.
pub decode-create_refresh_token :
    (p : Platform) (settings : Settings) (subject sid jti : String) (span issued_at now : ℕ)
    {token : String}
    → VerifiesClaims p
    → strip settings.jwt_issuer ≡ settings.jwt_issuer
    → strip settings.jwt_refresh_audience ≡ settings.jwt_refresh_audience
    → create_refresh_token p settings subject sid (some span) issued_at jti ≡ ok token
    → issued_at ≤ now
    → now < whole_seconds (issued_at + span)
    → (payload : RefreshTokenPayload) × (decode_refresh_token p settings token now ≡ ok payload)
      × (payload.base.sub ≡ strip subject)
      × (payload.session_id ≡ strip sid)
      × (payload.base.exp ≡ whole_seconds (issued_at + span))
decode-create_refresh_token p settings subject sid jti span issued_at now {token} jwt iss aud made
      since till =
    let m = create_refresh_token-made p settings subject sid jti token span issued_at made in
    let f =
      validate_base-fields (refresh_fields settings subject jti span issued_at) m.payload m.valid in
    let later : now < whole_seconds m.payload.exp = rw (f.1) till in
    let earlier : whole_seconds m.payload.iat ≤ now = rw (f.2) (omega arith) in
    let fits =
      verifies-refresh m.payload m.session_id settings.jwt_issuer settings.jwt_refresh_audience now
        (f.3 ∙ iss) (f.4 ∙ aud) later earlier in
    let b =
      validate_base_again (refresh_fields settings subject jti span issued_at) m.payload m.valid
        (omega arith) in
    let s = validate_session_id_again (strip sid) m.session_id m.sid_lem in
    let body =
      refresh_payload-encoded m.payload (in_whole_seconds m.payload) m.session_id m.session_id b
        s in
    (
      record { base = in_whole_seconds m.payload; session_id = m.session_id },
      rw m.token_lem
          (decode_refresh_token-encode p settings now m.payload m.session_id jwt fits body),
      f.0 ∙ strip_idem subject,
      validate_session_id-field (strip sid) m.session_id m.sid_lem ∙ strip_idem sid,
      ap whole_seconds f.1,
    )

-- With a JWT library that verifies as documented, a refresh token is never accepted where an access token is asked for, even if
-- both audiences are configured alike.
pub refresh-not-access :
    (p : Platform) (settings : Settings) (subject sid jti : String) (span issued_at now : ℕ)
    {token : String}
    → VerifiesClaims p
    → create_refresh_token p settings subject sid (some span) issued_at jti ≡ ok token
    → decode_access_token p settings token now ≡ err (app (Exceptions.auth invalid_access_token))
unfolding decode_access_token
refresh-not-access p settings subject sid jti span issued_at now {token} jwt made =
    let m = create_refresh_token-made p settings subject sid jti token span issued_at made in
    let fails = access_payload-refresh m.payload m.session_id in
    rw m.token_lem (
      refused p settings access_payload invalid_access_token settings.jwt_access_audience
        access_token_claims now (refresh_claims m.payload m.session_id) jwt fails)
