-- ===== src/Dependencies/Subject.antt =====
-- api/deps.py and core/security.py: whom an access token names.
use todo_api.Base.{
  ℕ, String, ◌≡◌, ◌≤◌, ◌∙◌, ap, sym, refl, Option, Bool, arith, true, none, some, false, [], ◌∷◌,
  Option-cases, Bool-cases, inl, inr, nat_eq, ◌==◌,
}
use todo_api.Text.{strip, is_empty}
use todo_api.Text.Decimal.{pos, negsuc, int}
use todo_api.Results.{ok}
use todo_api.Config.{Settings}
use todo_api.Platform.{Platform, Value, text, datetime, numeric_date, Claims, claim}
use todo_api.Tokens.{BaseTokenPayload, validate_base, given}
use todo_api.Tokens.Decode.{
  decode, decode_access_token, access_payload, base_payload, guarded, text_of, datetime_of,
  either_claim, if_literal, access_token_claims,
}
use todo_api.Dependencies.{access_token_user_id, user_id_of, select_access_token}

-- The token is signed with the settings' key, for the issuer and the audience of access tokens, has all
-- the claims that such a token needs, and its subject is the number of the user, which is not 0.
pub record IsTokenOf (p : Platform) (settings : Settings) (token : String) (now user_id : ℕ)
    : Type 0 where
  pub claims : Claims
  pub subject : String
  pub verified :
      p.jwt_decode token settings.secret_key settings.jwt_algorithm settings.jwt_issuer
        settings.jwt_access_audience
        ("sub" ∷ "exp" ∷ "iat" ∷ "jti" ∷ "iss" ∷ "aud" ∷ "type" ∷ [])
        now
      ≡ some claims
  pub has_subject : claim "sub" claims ≡ some (text subject)
  pub is_number : int (strip subject) ≡ some (pos user_id)
  pub is_positive : 1 ≤ user_id

validate_base-sub :
    (c payload : BaseTokenPayload) → validate_base c ≡ some payload → payload.sub ≡ strip c.sub
unfolding validate_base
validate_base-sub c payload h = ground arith

some-guarded : {A : Type 0} (b : Bool) (o : Option A) (a : A) → guarded b o ≡ some a → o ≡ some a
some-guarded b o a h = elim (Bool-cases b) [
  | inl on ↦ ground arith
  | inr off ↦ absurd (ground arith)
]

text_of-text : (o : Option Value) (s : String) → text_of o ≡ some s → o ≡ some (text s)
text_of-text none s h = absurd (ground arith)
text_of-text (some (text t)) s h = ground arith
text_of-text (some (datetime t)) s h = absurd (ground arith)
text_of-text (some (numeric_date n)) s h = absurd (ground arith)

base_payload-sub :
    (c : Claims) (payload : BaseTokenPayload)
    → base_payload "access" c ≡ some payload
    → (subject : String) × (claim "sub" c ≡ some (text subject)) × (payload.sub ≡ strip subject)
unfolding base_payload
base_payload-sub c payload h = elim (Option-cases (text_of (claim "sub" c))) [
  | inl missing ↦ absurd (ground arith)
  | inr (sub, is_sub) ↦ elim (Option-cases (datetime_of (claim "exp" c))) [
    | inl missing ↦ absurd (ground arith)
    | inr (exp, is_exp) ↦ elim (Option-cases (datetime_of (claim "iat" c))) [
      | inl missing ↦ absurd (ground arith)
      | inr (iat, is_iat) ↦ elim (Option-cases (text_of (claim "jti" c))) [
        | inl missing ↦ absurd (ground arith)
        | inr (jti, is_jti) ↦ elim (Option-cases (text_of (claim "iss" c))) [
          | inl missing ↦ absurd (ground arith)
          | inr (iss, is_iss) ↦ elim (Option-cases (text_of (claim "aud" c))) [
            | inl missing ↦ absurd (ground arith)
            | inr (aud, is_aud) ↦
                elim (Option-cases (
                  validate_base (record {
                    sub = sub;
                    exp = exp;
                    iat = iat;
                    jti = jti;
                    iss = iss;
                    aud = aud;
                  }))) [
                    | inl missing ↦ absurd (ground arith)
                    | inr (valid, is_valid) ↦
                        elim (Option-cases
                          (if_literal "access" (text_of (either_claim "type" "token_type" c)))) [
                            | inl missing ↦ absurd (ground arith)
                            | inr (literal, is_literal) ↦ (
                              sub,
                              text_of-text (claim "sub" c) sub is_sub,
                              ground (
                                arith,
                                validate_base-sub
                                    (record {
                                      sub = sub;
                                      exp = exp;
                                      iat = iat;
                                      jti = jti;
                                      iss = iss;
                                      aud = aud;
                                    })
                                    valid is_valid,
                              ),
                            )
                          ]
                  ]
          ]
        ]
      ]
    ]
  ]
]

access_payload-sub :
    (c : Claims) (payload : BaseTokenPayload)
    → access_payload c ≡ some payload
    → (subject : String) × (claim "sub" c ≡ some (text subject)) × (payload.sub ≡ strip subject)
unfolding access_payload
access_payload-sub c payload h = base_payload-sub c payload (some-guarded _ _ payload h)

user_id-positive :
    (payload : BaseTokenPayload) (user_id : ℕ)
    → user_id_of (ok payload) ≡ ok user_id
    → (int payload.sub ≡ some (pos user_id)) × (1 ≤ user_id)
user_id-positive payload user_id h = elim (Option-cases (int payload.sub)) [
  | inl missing ↦ absurd (ground arith)
  | inr (negsuc n, e) ↦ absurd (ground arith)
  | inr (pos n, e) ↦ elim (Bool-cases (n == 0)) [
    | inl zero ↦ absurd (ground arith)
    | inr other ↦ (ground arith, ground arith)
  ]
]

-- A token whose user the service reads is a verified one of that user.
pub access_token_user_id-IsTokenOf :
    (p : Platform) (settings : Settings) (token : String) (now user_id : ℕ)
    → access_token_user_id p settings token now ≡ ok user_id
    → IsTokenOf p settings token now user_id
unfolding decode_access_token decode
access_token_user_id-IsTokenOf p settings token now user_id h =
    elim (Option-cases (
      p.jwt_decode token settings.secret_key settings.jwt_algorithm settings.jwt_issuer
        settings.jwt_access_audience access_token_claims now)) [
          | inl invalid ↦ absurd (ground arith)
          | inr (claims, verified) ↦ elim (Option-cases (access_payload claims)) [
            | inl malformed ↦ absurd (ground arith)
            | inr (payload, valid) ↦
                let (subject, has, is) = access_payload-sub claims payload valid in
                let (number, positive) = user_id-positive payload user_id (ground arith) in
                record {
                  claims = claims;
                  subject = subject;
                  verified = verified;
                  has_subject = has;
                  is_number = ap int (sym is) ∙ number;
                  is_positive = positive;
                }
          ]
        ]

-- The token that a request is judged by: the explicit one or, without it, that of the cookie.
pub data IsSelected (token cookie_token : Option String) (selected : String) : Type 0 where
  explicit : token ≡ some selected → IsSelected token cookie_token selected
  of_cookie :
      is_empty (given token) ≡ true
      → cookie_token ≡ some selected
      → IsSelected token cookie_token selected

given-some : (o : Option String) → is_empty (given o) ≡ false → o ≡ some (given o)
given-some none h = absurd (ground arith)
given-some (some s) h = refl

pub select_access_token-IsSelected :
    (token cookie_token : Option String) (selected : String)
    → select_access_token token cookie_token ≡ ok selected
    → IsSelected token cookie_token selected
unfolding select_access_token
select_access_token-IsSelected token cookie_token selected h =
    elim (Bool-cases (is_empty (given token))) [
      | inr brought ↦ explicit (given-some token brought ∙ ap some (ground arith))
      | inl without ↦ elim (Bool-cases (is_empty (given cookie_token))) [
        | inr kept ↦ of_cookie without (given-some cookie_token kept ∙ ap some (ground arith))
        | inl neither ↦ absurd (ground arith)
      ]
    ]
