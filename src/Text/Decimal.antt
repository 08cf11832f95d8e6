-- ===== src/Text/Decimal.antt =====
-- Python's `str` of a number that is not negative, and `int` of a text: white space at the ends, a
-- sign, and digits with single underscores between them. `int` also reads the decimal digits of
-- other scripts, which are not modelled.
pub mod RoundTrip
use Prim.Native.Char.{Char, code}
use todo_api.Base.{
  ℕ, zero, suc, String, Bool, true, false, ◌&&◌, ◌||◌, ◌+◌, ◌-◌, ◌*◌, ◌/◌, ◌%◌, ◌==◌, nat_eq,
  Option, none, some, leb, ltb, if◌then◌else◌,
}
use todo_api.Text.{strip}

-- `negsuc n` is -(n + 1).
pub data ℤ : Type 0 where
  pos : ℕ → ℤ
  negsuc : ℕ → ℤ

digit_char : ℕ → Char
digit_char zero = "0"
digit_char (suc zero) = "1"
digit_char (suc (suc zero)) = "2"
digit_char (suc (suc (suc zero))) = "3"
digit_char (suc (suc (suc (suc zero)))) = "4"
digit_char (suc (suc (suc (suc (suc zero))))) = "5"
digit_char (suc (suc (suc (suc (suc (suc zero)))))) = "6"
digit_char (suc (suc (suc (suc (suc (suc (suc zero))))))) = "7"
digit_char (suc (suc (suc (suc (suc (suc (suc (suc zero)))))))) = "8"
digit_char _ = "9"

-- The digits of `n` before `rest`; the fuel is more than `n`.
emit : ℕ → ℕ → String → String
unfolding digit_char
emit zero n rest = rest
emit (suc f) n rest =
    let more = emit f (n / 10) (String.◌∷◌ (digit_char (n % 10)) rest) in
    if ltb n 10 then String.◌∷◌ (digit_char n) rest else more

-- `str(n)`
unfoldable pub show : ℕ → String
unfolding emit
show n = emit (suc n) n String.[]

abbrev pub is_digit : Char → Bool
is_digit c = leb b'0' (code c) && leb (code c) b'9'

scan : Bool → ℕ → String → Option ℕ
scan after_digit n String.[] = if after_digit then some n else none
scan after_digit n (String.◌∷◌ c s) =
    let rest = scan (is_digit c) (if is_digit c then n * 10 + (code c - b'0') else n) s in
    if is_digit c || (after_digit && code c == b'_') then rest else none

abbrev negative : ℕ → ℤ
negative zero = pos zero
negative (suc n) = negsuc n

abbrev map_option : {A B : Type 0} → (A → B) → Option A → Option B
map_option f none = none
map_option f (some a) = some (f a)

signed : String → Option ℤ
unfolding scan
signed String.[] = none
signed (String.◌∷◌ c s) =
    if code c == b'-'
    then map_option negative (scan false 0 s)
    else if code c == b'+'
    then map_option pos (scan false 0 s)
    else map_option pos (scan false 0 (String.◌∷◌ c s))

-- `int(s)`; `none` is its `ValueError`.
unfoldable pub int : String → Option ℤ
unfolding signed
int s = signed (strip s)
