-- ===== src/Repositories/Todo/Like.antt =====
-- The pattern of a text search: `_escape_like` and the `%` round it. Read as PostgreSQL reads a
-- pattern with `\` for its escape, it is the searched text between two wildcards.
use Prim.Native.Char.{Char, code}
use Prim.Native.String.{◌++◌}
use text.Mathlib.TextLemmas.{cons-append, nil-append}
use todo_api.Base.{
  ℕ, String, ◌≡◌, ◌∙◌, ap, refl, arith, Bool, true, false, not, ◌&&◌, ◌||◌, ◌==◌, nat_eq,
  Bool-cases, inl, inr, List, [], ◌∷◌, if◌then◌else◌,
}

abbrev backslash : Char
backslash = "\\"

-- `value.replace(c, "\\" + c)` for one character `c`
escape_char : ℕ → String → String
escape_char n String.[] = String.[]
escape_char n (String.◌∷◌ c s) =
    let rest = escape_char n s in
    if code c == n then String.◌∷◌ backslash (String.◌∷◌ c rest) else String.◌∷◌ c rest

-- `_escape_like`
pub escape_like : String → String
unfolding escape_char
escape_like s = escape_char b'_' (escape_char b'%' (escape_char 92 s))

-- `f"%{_escape_like(search)}%"`
pub pattern_of : String → String
pattern_of s = "%" ++ (escape_like s ++ "%")

-- A pattern as the server reads it.
pub data Token : Type 0 where
  any_run any_char : Token
  literal : Char → Token

-- One character of a pattern, behind an escape or not: an escape character gives nothing.
abbrev emit : Bool → Char → List Token → List Token
emit true c rest = literal c ∷ rest
emit false c rest =
    if code c == 92
    then rest
    else if code c == b'%'
    then any_run ∷ rest
    else if code c == b'_'
    then any_char ∷ rest
    else literal c ∷ rest

read_tokens : Bool → String → List Token
read_tokens escaped String.[] = []
read_tokens escaped (String.◌∷◌ c s) = emit escaped c (read_tokens (not escaped && code c == 92) s)

pub tokens : String → List Token
unfolding read_tokens
tokens s = read_tokens false s

pub literals : String → List Token → List Token
literals String.[] rest = rest
literals (String.◌∷◌ c s) rest = literal c ∷ literals s rest

is_special : Char → Bool
is_special c = code c == 92 || code c == b'%' || code c == b'_'

escape_like-cons :
    (c : Char) (s : String)
    → escape_like (String.◌∷◌ c s) ≡ (
        if is_special c
        then String.◌∷◌ backslash (String.◌∷◌ c (escape_like s))
        else String.◌∷◌ c (escape_like s))
unfolding escape_like is_special
escape_like-cons c s = ground arith

tokens-escaped :
    (c : Char) (r : String) → tokens (String.◌∷◌ backslash (String.◌∷◌ c r)) ≡ literal c ∷ tokens r
unfolding tokens
tokens-escaped c r = refl

tokens-plain :
    (c : Char) (r : String) → is_special c ≡ false → tokens (String.◌∷◌ c r) ≡ literal c ∷ tokens r
unfolding tokens is_special
tokens-plain c r h = ground arith

tokens-escape_like : (s rest : String) → tokens (escape_like s ++ rest) ≡ literals s (tokens rest)
unfolding literals
tokens-escape_like String.[] rest = unfold escape_like in rw nil-append
tokens-escape_like (String.◌∷◌ c s) rest = elim (Bool-cases (is_special c)) [
  | inl special ↦
      simp (escape_like-cons, special, cons-append, tokens-escaped, tokens-escape_like s rest)
  | inr plain ↦
      simp (escape_like-cons, plain, cons-append, tokens-plain c (escape_like s ++ rest) plain)
        (ap (λ r. literal c ∷ r) (tokens-escape_like s rest))
]

abbrev percent : Char
percent = "%"

percent-append : (r : String) → ("%" ++ r) ≡ String.◌∷◌ percent r
percent-append r = cons-append percent "" r ∙ ap (String.◌∷◌ percent) (nil-append r)

tokens-percent : (r : String) → tokens (String.◌∷◌ percent r) ≡ any_run ∷ tokens r
unfolding tokens
tokens-percent r = refl

tokens_end : tokens "%" ≡ any_run ∷ []
unfolding tokens
tokens_end = refl

-- For every search text, the pattern that the repository builds is read by the server as the text
-- itself, each character for itself, between two wildcards that match any run of characters.
pub tokens-pattern_of : (s : String) → tokens (pattern_of s) ≡ any_run ∷ literals s (any_run ∷ [])
unfolding pattern_of
tokens-pattern_of s =
    ap tokens (percent-append (escape_like s ++ "%"))
    ∙ tokens-percent (escape_like s ++ "%")
    ∙ ap (λ r. any_run ∷ r) (tokens-escape_like s "%" ∙ ap (literals s) tokens_end)
