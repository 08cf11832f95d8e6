-- ===== src/Config/Checked.antt =====
-- What settings that pass their validators guarantee.
use todo_api.Base.{
  ℕ, String, ◌≡◌, ◌≤◌, eq_iff, subst, arith, Bool, true, false, ◌||◌, ltb, ◌==◌, string_eq, some,
  List, [], ◌∷◌, is_in, All, Bool-cases, Option-cases, inl, inr,
}
use todo_api.Text.{strip}
use todo_api.Text.Split.{starts_with, utf8_length, distinct_chars}
use todo_api.Text.Url.{Url, urlsplit}
use todo_api.Results.{Result, ok, Result-cases}
use todo_api.Platform.{Platform}
use todo_api.Config.{Settings}
use todo_api.Config.Validators.{
  validated, validate_cors_allowed_origins, checked_origin, validate_oauth2_redirect_uris,
  checked_redirect_uri, is_deployed, uses_https, all_use_https, validate_deployment,
  validate_signing_secret, minimum_key_bytes,
}

-- Every value stands once, and none among those seen.
abbrev pub IsDistinct : List String → List String → Type 0
IsDistinct seen [] = Unit
IsDistinct seen (v ∷ vs) = (is_in v seen ≡ false) × IsDistinct (v ∷ seen) vs

abbrev pub IsChecked : (String → Result String) → List String → Type 0
IsChecked checked = All (λ v. (raw : String) × (checked raw ≡ ok v))

validated-IsDistinct :
    (checked : String → Result String) (seen raws values : List String)
    → validated checked seen raws ≡ ok values
    → IsDistinct seen values × IsChecked checked values
unfolding validated
validated-IsDistinct checked seen [] [] h = (tt, tt)
validated-IsDistinct checked seen [] (v ∷ vs) h = absurd (ground arith)
validated-IsDistinct checked seen (raw ∷ raws) values h = elim (Result-cases (checked raw)) [
  | inr (e, bad) ↦ absurd (ground arith)
  | inl (value, good) ↦ elim (Bool-cases (is_in value seen)) [
    | inl twice ↦ absurd (ground arith)
    | inr first ↦ elim (Result-cases (validated checked (value ∷ seen) raws)) [
      | inr (e, bad) ↦ absurd (ground arith)
      | inl (vs, rest) ↦
          let (distinct, checks) = validated-IsDistinct checked (value ∷ seen) raws vs rest in
          let is : value ∷ vs ≡ values = ground arith in
          subst (λ l. IsDistinct seen l × IsChecked checked l) is
            ((first, distinct), ((raw, good), checks))
    ]
  ]
]

-- The origins that the settings take are checked one by one, and no two of them are the same; so are
-- the redirect URIs.
pub validated_settings-IsDistinct :
    (p : Platform) (origins uris origins' uris' : List String)
    → validate_cors_allowed_origins p origins ≡ ok origins'
    → validate_oauth2_redirect_uris p uris ≡ ok uris'
    → (IsDistinct [] origins' × IsChecked (checked_origin p) origins')
      × (IsDistinct [] uris' × IsChecked (checked_redirect_uri p) uris')
unfolding validate_cors_allowed_origins validate_oauth2_redirect_uris
validated_settings-IsDistinct p origins uris origins' uris' taken taken' = (
  validated-IsDistinct (checked_origin p) [] origins origins' taken,
  validated-IsDistinct (checked_redirect_uri p) [] uris uris' taken',
)

-- The scheme of a URL is HTTPS.
pub record IsHttps (p : Platform) (url : String) : Type 0 where
  pub parsed : Url
  pub splits : urlsplit p url ≡ some parsed
  pub scheme : parsed.scheme ≡ "https"

uses_https-IsHttps : (p : Platform) (url : String) → uses_https p url ≡ ok tt → IsHttps p url
uses_https-IsHttps p url h = elim (Option-cases (urlsplit p url)) [
  | inl malformed ↦ absurd (ground arith)
  | inr (u, splits) ↦ elim (Bool-cases (u.scheme == "https")) [
    | inr other ↦ absurd (ground arith)
    | inl same ↦ record { parsed = u; splits = splits; scheme = (eq_iff u.scheme "https").0 same }
  ]
]

all_use_https-IsHttps :
    (p : Platform) (origins : List String)
    → all_use_https p origins ≡ ok tt
    → All (IsHttps p) origins
unfolding all_use_https
all_use_https-IsHttps p [] h = tt
all_use_https-IsHttps p (origin ∷ origins) h = elim (Result-cases (uses_https p origin)) [
  | inr (e, plain) ↦ absurd (ground arith)
  | inl (done, safe) ↦
      (uses_https-IsHttps p origin safe, all_use_https-IsHttps p origins (ground arith))
]

abbrev is_weak : Platform → Settings → Bool
is_weak p settings =
    ltb (distinct_chars (p.casefold (strip settings.secret_key))) 8
    || starts_with (p.casefold (strip settings.secret_key)) "change-this"

deployment-tests :
    (p : Platform) (settings : Settings)
    → validate_deployment p settings ≡ ok tt
    → (is_weak p settings ≡ false)
      × (settings.auth_cookie_secure ≡ true)
      × (uses_https p settings.email_verification_url ≡ ok tt)
      × (all_use_https p settings.cors_allowed_origins ≡ ok tt)
unfolding validate_deployment
deployment-tests p settings h = elim (Bool-cases (is_weak p settings)) [
  | inl weak ↦ absurd (ground arith)
  | inr strong ↦ elim (Bool-cases settings.auth_cookie_secure) [
    | inr plain ↦ absurd (ground arith)
    | inl secure ↦ elim (Result-cases (uses_https p settings.email_verification_url)) [
      | inr (e, plain) ↦ absurd (ground arith)
      | inl (done, safe) ↦ (strong, secure, ground arith, ground arith)
    ]
  ]
]

signing-tests :
    (p : Platform) (settings : Settings)
    → is_deployed settings.app_env ≡ true
    → validate_signing_secret p settings ≡ ok tt
    → (ltb (utf8_length settings.secret_key) (minimum_key_bytes settings.jwt_algorithm) ≡ false)
      × (validate_deployment p settings ≡ ok tt)
unfolding validate_signing_secret
signing-tests p settings deployed h =
    elim (Bool-cases (settings.apscheduler_jobs_key == settings.apscheduler_run_times_key)) [
      | inl same ↦ absurd (ground arith)
      | inr differ ↦ (ground arith, ground arith)
    ]

-- The keys of RFC 7518: as many bytes as the digest of the algorithm.
pub data HasKeySize (algorithm : String) (size : ℕ) : Type 0 where
  hs256 : algorithm ≡ "HS256" → 32 ≤ size → HasKeySize algorithm size
  hs384 : algorithm ≡ "HS384" → 48 ≤ size → HasKeySize algorithm size
  hs512 : 64 ≤ size → HasKeySize algorithm size

minimum_key_bytes-HasKeySize :
    (algorithm : String) (size : ℕ)
    → ltb size (minimum_key_bytes algorithm) ≡ false
    → HasKeySize algorithm size
unfolding minimum_key_bytes
minimum_key_bytes-HasKeySize algorithm size h = elim (Bool-cases (algorithm == "HS256")) [
  | inl short ↦ hs256 ((eq_iff algorithm "HS256").0 short) (ground arith)
  | inr other ↦ elim (Bool-cases (algorithm == "HS384")) [
    | inl middle ↦ hs384 ((eq_iff algorithm "HS384").0 middle) (ground arith)
    | inr long ↦ hs512 (ground arith)
  ]
]

-- What a deployment's settings guarantee.
pub record IsHardened (p : Platform) (settings : Settings) : Type 0 where
  pub key_size : HasKeySize settings.jwt_algorithm (utf8_length settings.secret_key)
  pub key_variety : 8 ≤ distinct_chars (p.casefold (strip settings.secret_key))
  pub key_changed : starts_with (p.casefold (strip settings.secret_key)) "change-this" ≡ false
  pub secure : settings.auth_cookie_secure ≡ true
  pub url : IsHttps p settings.email_verification_url
  pub origins : All (IsHttps p) settings.cors_allowed_origins

-- In staging and in production, settings that pass their check have a signing key of 32 bytes at
-- least under HS256, of 48 under HS384 and of 64 otherwise, of eight different characters at least and not the one of the template, cookies for HTTPS
-- alone, and only HTTPS origins.
pub validate_signing_secret-IsHardened :
    (p : Platform) (settings : Settings)
    → is_deployed settings.app_env ≡ true
    → validate_signing_secret p settings ≡ ok tt
    → IsHardened p settings
validate_signing_secret-IsHardened p settings deployed h =
    let (sized, passed) = signing-tests p settings deployed h in
    let (strong, secure, url, origins) = deployment-tests p settings passed in
    record {
      key_size =
          minimum_key_bytes-HasKeySize settings.jwt_algorithm (utf8_length settings.secret_key)
            sized;
      key_variety = ground arith;
      key_changed = ground arith;
      secure = secure;
      url = uses_https-IsHttps p settings.email_verification_url url;
      origins = all_use_https-IsHttps p settings.cors_allowed_origins origins;
    }
