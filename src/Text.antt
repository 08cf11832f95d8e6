-- ===== src/Text.antt =====
-- The string operations of Python that the program calls: `str.strip`, truth of a string and
-- `str.replace` of one character. `String` is a list of characters with its own `[]` and `∷`.
pub mod Strip
pub mod Decimal
pub mod Split
pub mod Url
pub mod Html
pub mod Markup
use Prim.Native.Char.{Char, code}
pub use Prim.Native.String.{◌++◌ as ◌<>◌}
use todo_api.Base.{ℕ, String, Bool, true, false, ◌&&◌, ◌||◌, ◌==◌, leb, nat_eq, if◌then◌else◌}

-- `not s`
abbrev pub is_empty : String → Bool
is_empty String.[] = true
is_empty (String.◌∷◌ _ _) = false

-- `str.isspace` of one character: the white space of Unicode, as Python has it.
unfoldable pub is_space : ℕ → Bool
is_space c =
    (leb 9 c && leb c 13)
    || (leb 28 c && leb c 32)
    || c == 0x85
    || c == 0xa0
    || c == 0x1680
    || (leb 0x2000 c && leb c 0x200a)
    || c == 0x2028
    || c == 0x2029
    || c == 0x202f
    || c == 0x205f
    || c == 0x3000

abbrev pub is_space_char : Char → Bool
is_space_char c = is_space (code c)

abbrev pub lstrip : String → String
lstrip String.[] = String.[]
lstrip (String.◌∷◌ c s) = let rest = lstrip s in if is_space_char c then rest else String.◌∷◌ c s

abbrev rstrip_cons : Char → String → String
rstrip_cons c rest = if is_space_char c && is_empty rest then String.[] else String.◌∷◌ c rest

abbrev pub rstrip : String → String
rstrip String.[] = String.[]
rstrip (String.◌∷◌ c s) = rstrip_cons c (rstrip s)

-- `bytes.rstrip` of one character.
abbrev rstrip_char_cons : ℕ → Char → String → String
rstrip_char_cons k c rest = if code c == k && is_empty rest then String.[] else String.◌∷◌ c rest

abbrev pub rstrip_char : ℕ → String → String
rstrip_char k String.[] = String.[]
rstrip_char k (String.◌∷◌ c s) = rstrip_char_cons k c (rstrip_char k s)

unfoldable pub strip : String → String
strip s = lstrip (rstrip s)
