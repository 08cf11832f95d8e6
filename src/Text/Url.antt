-- ===== src/Text/Url.antt =====
-- `urlsplit` and `urlunsplit` of Python's `urllib.parse`, and the parts of a `SplitResult`. The check
-- of a network location in brackets or outside ASCII is the platform's.
use Prim.Native.Char.{code}
use todo_api.Base.{
  ℕ, String, Bool, false, not, ◌&&◌, ◌||◌, ◌==◌, nat_eq, leb, Option, none, some, if◌then◌else◌,
}
use todo_api.Text.{is_empty, ◌<>◌}
use todo_api.Text.Split.{
  cut, rcut, before, behind, contains_char, starts_with, drop_chars, span, without_chars, all_chars,
  drop_leading,
}
use todo_api.Platform.{Platform}

pub record Url : Type 0 where
  pub scheme : String
  pub netloc : String
  pub path : String
  pub query : String
  pub fragment : String

abbrev is_letter : ℕ → Bool
is_letter c = (leb b'A' c && leb c b'Z') || (leb b'a' c && leb c b'z')

abbrev is_scheme_char : ℕ → Bool
is_scheme_char c = is_letter c || (leb b'0' c && leb c b'9') || c == b'+' || c == b'-' || c == b'.'

abbrev begins_with_letter : String → Bool
begins_with_letter String.[] = false
begins_with_letter (String.◌∷◌ c s) = is_letter (code c)

abbrev is_scheme : String → Bool
is_scheme s = begins_with_letter s && all_chars is_scheme_char s

-- The scheme, in small letters, and what follows it.
unfoldable pub split_scheme : Platform → String → String × String
split_scheme p url = elim (cut b':' url) [
  | none ↦ (String.[], url)
  | some ab ↦ if is_scheme ab.0 then (p.lower ab.0, ab.1) else (String.[], url)
]

abbrev ends_netloc : ℕ → Bool
ends_netloc c = c == b'/' || c == b'?' || c == b'#'

unfoldable pub split_netloc : String → String × String
split_netloc url =
    if starts_with url "//" then span ends_netloc (drop_chars 2 url) else (String.[], url)

-- What `urlsplit` drops: control characters and spaces in front, tabs and line ends everywhere.
unfoldable pub cleaned : String → String
cleaned url = without_chars (λ c. c == 9 || c == 10 || c == 13) (drop_leading (λ c. leb c 32) url)

-- `none` is its `ValueError`.
unfoldable pub urlsplit : Platform → String → Option Url
unfolding cleaned split_scheme split_netloc
urlsplit p url =
    let (scheme, rest) = split_scheme p (cleaned url) in
    let (netloc, rest') = split_netloc rest in
    let rest'' = before b'#' rest' in
    if p.accepts_netloc netloc
    then some (record {
      scheme = scheme;
      netloc = netloc;
      path = before b'?' rest'';
      query = behind b'?' rest'';
      fragment = behind b'#' rest';
    })
    else none

-- `urlunsplit`: an authority is written behind `//`, and a path after it begins with `/`.
abbrev with_netloc : Url → String
with_netloc u =
    if is_empty u.netloc && not (starts_with u.path "//")
    then u.path
    else "//"
      <> u.netloc
      <> (if is_empty u.path || starts_with u.path "/" then u.path else "/" <> u.path)

abbrev with_scheme : Url → String
with_scheme u = if is_empty u.scheme then with_netloc u else u.scheme <> ":" <> with_netloc u

unfoldable pub urlunsplit : Url → String
urlunsplit u =
    with_scheme u
    <> (if is_empty u.query then String.[] else "?" <> u.query)
    <> (if is_empty u.fragment then String.[] else "#" <> u.fragment)

-- `SplitResult.username is not None`, and so for the password.
unfoldable pub has_username : Url → Bool
has_username u = contains_char b'@' u.netloc

unfoldable pub has_password : Url → Bool
has_password u = elim (rcut b'@' u.netloc) [ none ↦ false | some ab ↦ contains_char b':' ab.0 ]

abbrev host_info : Url → String
host_info u = elim (rcut b'@' u.netloc) [ none ↦ u.netloc | some ab ↦ ab.1 ]

-- Whether `SplitResult.hostname` is given.
unfoldable pub has_hostname : Url → Bool
has_hostname u = elim (cut b'[' (host_info u)) [
  | none ↦ not (is_empty (before b':' (host_info u)))
  | some ab ↦ not (is_empty (before b']' ab.1))
]
