-- ===== src/Config/Tests.antt =====
-- The validators at concrete settings.
use todo_api.Base.{◌≡◌, refl, [], ◌∷◌}
use todo_api.Text.{strip, is_space}
use todo_api.Text.Split.{
  cut, rcut, span, without_chars, all_chars, drop_leading, drop_chars, starts_with, contains_char,
  utf8_length, distinct_chars,
}
use todo_api.Text.Url.{urlsplit, cleaned, split_scheme, split_netloc, has_username, has_password}
use todo_api.Results.{ok}
use todo_api.Config.{Settings, production}
use todo_api.Config.Validators.{
  validate_cors_allowed_origins, validate_oauth2_redirect_uris, validated, checked_origin,
  checked_redirect_uri, validate_signing_secret, validate_deployment, all_use_https,
  minimum_key_bytes,
}
use todo_api.Config.Checked.{
  IsDistinct, IsChecked, IsHardened, validated_settings-IsDistinct,
  validate_signing_secret-IsHardened,
}
use todo_api.Samples.{settings, plain_platform}

takes_origins :
    validate_cors_allowed_origins plain_platform ("https://a.example/" ∷ " http://b.example" ∷ [])
    ≡ ok ("https://a.example" ∷ "http://b.example" ∷ [])
unfolding validate_cors_allowed_origins validated checked_origin strip is_space urlsplit cleaned
    split_scheme split_netloc has_username has_password cut rcut span without_chars all_chars
    drop_leading drop_chars starts_with contains_char
takes_origins = refl

takes_uris :
    validate_oauth2_redirect_uris plain_platform ("app:/callback" ∷ "https://a.example/cb" ∷ [])
    ≡ ok ("app:/callback" ∷ "https://a.example/cb" ∷ [])
unfolding validate_oauth2_redirect_uris validated checked_redirect_uri strip is_space urlsplit
    cleaned split_scheme split_netloc cut span without_chars all_chars drop_leading drop_chars
    starts_with contains_char
takes_uris = refl

validated_settings-IsDistinct_example :
    (IsDistinct [] ("https://a.example" ∷ "http://b.example" ∷ [])
      × IsChecked (checked_origin plain_platform) ("https://a.example" ∷ "http://b.example" ∷ []))
    × (IsDistinct [] ("app:/callback" ∷ "https://a.example/cb" ∷ [])
        × IsChecked
            (checked_redirect_uri plain_platform)
            ("app:/callback" ∷ "https://a.example/cb" ∷ []))
validated_settings-IsDistinct_example =
    validated_settings-IsDistinct plain_platform ("https://a.example/" ∷ " http://b.example" ∷ [])
      ("app:/callback" ∷ "https://a.example/cb" ∷ [])
      ("https://a.example" ∷ "http://b.example" ∷ [])
      ("app:/callback" ∷ "https://a.example/cb" ∷ []) takes_origins takes_uris

abbrev deployed : Settings
deployed = record settings {
  app_env = production;
  secret_key = "0123456789abcdef0123456789abcdef";
  cors_allowed_origins = "https://a.example" ∷ [];
}

takes_deployment : validate_signing_secret plain_platform deployed ≡ ok tt
unfolding validate_signing_secret validate_deployment all_use_https minimum_key_bytes strip is_space
    urlsplit cleaned split_scheme split_netloc cut span without_chars all_chars drop_leading
    drop_chars starts_with contains_char utf8_length distinct_chars
takes_deployment = refl

validate_signing_secret-IsHardened_example : IsHardened plain_platform deployed
validate_signing_secret-IsHardened_example =
    validate_signing_secret-IsHardened plain_platform deployed refl takes_deployment
