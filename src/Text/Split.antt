-- ===== src/Text/Split.antt =====
-- The string operations of Python that take a text apart: `partition`, `rpartition`, `in` for one
-- character, `startswith`, and the length in UTF-8. Characters are given by their codes.
use Prim.Native.Char.{Char, code, len_utf8}
use todo_api.Base.{
  ℕ, zero, suc, String, Bool, true, false, ◌&&◌, ◌||◌, ◌+◌, ◌==◌, nat_eq, Option, none, some,
  if◌then◌else◌,
}

abbrev prefixed : Char → Option (String × String) → Option (String × String)
prefixed c none = none
prefixed c (some (a, b)) = some (String.◌∷◌ c a, b)

-- `str.partition`: what stands before and behind the first such character, if there is one.
unfoldable pub cut : ℕ → String → Option (String × String)
cut k String.[] = none
cut k (String.◌∷◌ c s) =
    let later = prefixed c (cut k s) in if code c == k then some (String.[], s) else later

abbrev or_here : Bool → Char → String → Option (String × String) → Option (String × String)
or_here here c s (some (a, b)) = some (String.◌∷◌ c a, b)
or_here here c s none = if here then some (String.[], s) else none

-- `str.rpartition`, at the last such character.
unfoldable pub rcut : ℕ → String → Option (String × String)
rcut k String.[] = none
rcut k (String.◌∷◌ c s) = or_here (code c == k) c s (rcut k s)

abbrev pub before : ℕ → String → String
before k s = elim (cut k s) [ none ↦ s | some ab ↦ ab.0 ]

abbrev pub behind : ℕ → String → String
behind k s = elim (cut k s) [ none ↦ String.[] | some ab ↦ ab.1 ]

unfoldable pub contains_char : ℕ → String → Bool
contains_char k String.[] = false
contains_char k (String.◌∷◌ c s) = code c == k || contains_char k s

unfoldable pub starts_with : String → String → Bool
starts_with s String.[] = true
starts_with String.[] (String.◌∷◌ d p) = false
starts_with (String.◌∷◌ c s) (String.◌∷◌ d p) = code c == code d && starts_with s p

-- `str.removeprefix`, for a prefix of that many characters.
unfoldable pub drop_chars : ℕ → String → String
drop_chars zero s = s
drop_chars (suc n) String.[] = String.[]
drop_chars (suc n) (String.◌∷◌ c s) = drop_chars n s

-- The longest beginning without the characters of a test, and the rest.
unfoldable pub span : (ℕ → Bool) → String → String × String
span stop String.[] = (String.[], String.[])
span stop (String.◌∷◌ c s) =
    let (a, b) = span stop s in
    if stop (code c) then (String.[], String.◌∷◌ c s) else (String.◌∷◌ c a, b)

unfoldable pub without_chars : (ℕ → Bool) → String → String
without_chars bad String.[] = String.[]
without_chars bad (String.◌∷◌ c s) =
    let rest = without_chars bad s in if bad (code c) then rest else String.◌∷◌ c rest

unfoldable pub all_chars : (ℕ → Bool) → String → Bool
all_chars good String.[] = true
all_chars good (String.◌∷◌ c s) = good (code c) && all_chars good s

unfoldable pub drop_leading : (ℕ → Bool) → String → String
drop_leading bad String.[] = String.[]
drop_leading bad (String.◌∷◌ c s) =
    let rest = drop_leading bad s in if bad (code c) then rest else String.◌∷◌ c s

-- `len(s.encode())`
unfoldable pub utf8_length : String → ℕ
utf8_length String.[] = 0
utf8_length (String.◌∷◌ c s) = len_utf8 c + utf8_length s

-- `len(set(s))`
unfoldable pub distinct_chars : String → ℕ
unfolding contains_char
distinct_chars String.[] = 0
distinct_chars (String.◌∷◌ c s) =
    let rest = distinct_chars s in if contains_char (code c) s then rest else suc rest
