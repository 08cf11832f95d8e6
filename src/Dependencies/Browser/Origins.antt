-- ===== src/Dependencies/Browser/Origins.antt =====
-- api/deps.py: the origin that a header names.
use todo_api.Base.{
  String, ◌≡◌, refl, eq_iff, arith, true, false, Option, none, some, Option-cases, Bool-cases, inl,
  inr, ◌⊎◌, ◌==◌, string_eq, sym, is_in, [], ◌∷◌,
}
use todo_api.Results.{ok}
use todo_api.Text.{is_empty, strip, ◌<>◌}
use todo_api.Text.Url.{Url, urlsplit}
use todo_api.Platform.{Platform}
use todo_api.Tokens.{given}
use todo_api.Dependencies.Browser.{extract_origin}

-- The origin of a URL in a header: scheme and network location, in small letters.
pub record HasOrigin (p : Platform) (header : Option String) (origin : String) : Type 0 where
  pub url : String
  pub parts : Url
  pub sent : header ≡ some url
  pub splits : urlsplit p (strip url) ≡ some parts
  pub of_web : (parts.scheme ≡ "http") ⊎ (parts.scheme ≡ "https")
  pub located : is_empty parts.netloc ≡ false
  pub is : origin ≡ p.lower parts.scheme <> "://" <> p.lower parts.netloc

-- A header that is absent, empty, or no URL of the web.
pub data NamesNoOrigin (p : Platform) (header : Option String) : Type 0 where
  absent : is_empty (given header) ≡ true → NamesNoOrigin p header
  elsewhere :
      (url : String) (parts : Url)
      → header ≡ some url
      → urlsplit p (strip url) ≡ some parts
      → (is_in parts.scheme ("http" ∷ "https" ∷ []) ≡ false) ⊎ (is_empty parts.netloc ≡ true)
      → NamesNoOrigin p header

web-scheme : (s : String) → is_in s ("http" ∷ "https" ∷ []) ≡ true → (s ≡ "http") ⊎ (s ≡ "https")
web-scheme s h = elim (Bool-cases ("http" == s)) [
  | inl plain ↦ inl (sym ((eq_iff "http" s).0 plain))
  | inr other ↦ elim (Bool-cases ("https" == s)) [
    | inl safe ↦ inr (sym ((eq_iff "https" s).0 safe))
    | inr neither ↦ absurd (ground arith)
  ]
]

pub extract_origin-HasOrigin :
    (p : Platform) (header : Option String) (origin : String)
    → extract_origin p header ≡ ok (some origin)
    → HasOrigin p header origin
unfolding extract_origin
extract_origin-HasOrigin p none origin h = absurd (ground arith)
extract_origin-HasOrigin p (some url) origin h = elim (Bool-cases (is_empty url)) [
  | inl nothing ↦ absurd (ground arith)
  | inr sent ↦ elim (Option-cases (urlsplit p (strip url))) [
    | inl malformed ↦ absurd (ground arith)
    | inr (parts, splits) ↦ elim (Bool-cases (is_in parts.scheme ("http" ∷ "https" ∷ []))) [
      | inr other ↦ absurd (ground arith)
      | inl web ↦ elim (Bool-cases (is_empty parts.netloc)) [
        | inl nowhere ↦ absurd (ground arith)
        | inr located ↦ record {
          url = url;
          parts = parts;
          sent = refl;
          splits = splits;
          of_web = web-scheme parts.scheme web;
          located = located;
          is = ground arith;
        }
      ]
    ]
  ]
]

pub extract_origin-NamesNoOrigin :
    (p : Platform) (header : Option String)
    → extract_origin p header ≡ ok none
    → NamesNoOrigin p header
unfolding extract_origin
extract_origin-NamesNoOrigin p none h = absent refl
extract_origin-NamesNoOrigin p (some url) h = elim (Bool-cases (is_empty url)) [
  | inl nothing ↦ absent nothing
  | inr sent ↦ elim (Option-cases (urlsplit p (strip url))) [
    | inl malformed ↦ absurd (ground arith)
    | inr (parts, splits) ↦ elim (Bool-cases (is_in parts.scheme ("http" ∷ "https" ∷ []))) [
      | inr other ↦ elsewhere url parts refl splits (inl other)
      | inl web ↦ elim (Bool-cases (is_empty parts.netloc)) [
        | inl nowhere ↦ elsewhere url parts refl splits (inr nowhere)
        | inr located ↦ absurd (ground arith)
      ]
    ]
  ]
]
