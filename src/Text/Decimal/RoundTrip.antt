-- ===== src/Text/Decimal/RoundTrip.antt =====
-- `int(str(n))` is `n`.
use Prim.Native.Char.{code}
use todo_api.Base.{
  ℕ, zero, suc, String, ◌≡◌, ◌<◌, ◌+◌, ◌*◌, ◌/◌, ◌%◌, ◌∙◌, ap, refl, arith, Bool, true, false, ◌&&◌,
  nat_eq, some,
}
use todo_api.Text.{strip, rstrip, is_space, is_empty}
use todo_api.Text.Decimal.{pos, digit_char, emit, show, is_digit, scan, signed, int}

code-digit_char : (d : ℕ) → d < 10 → code (digit_char d) ≡ 48 + d
unfolding digit_char
code-digit_char zero h = refl
code-digit_char (suc zero) h = refl
code-digit_char (suc (suc zero)) h = refl
code-digit_char (suc (suc (suc zero))) h = refl
code-digit_char (suc (suc (suc (suc zero)))) h = refl
code-digit_char (suc (suc (suc (suc (suc zero))))) h = refl
code-digit_char (suc (suc (suc (suc (suc (suc zero)))))) h = refl
code-digit_char (suc (suc (suc (suc (suc (suc (suc zero))))))) h = refl
code-digit_char (suc (suc (suc (suc (suc (suc (suc (suc zero)))))))) h = refl
code-digit_char (suc (suc (suc (suc (suc (suc (suc (suc (suc zero))))))))) h = refl
code-digit_char (suc (suc (suc (suc (suc (suc (suc (suc (suc (suc n)))))))))) h =
    absurd (omega arith)

scan-digit :
    (b : Bool) (n d : ℕ) (s : String)
    → d < 10
    → scan b n (String.◌∷◌ (digit_char d) s) ≡ scan true (n * 10 + d) s
unfolding scan
scan-digit b n d s h = ground (arith, code-digit_char d)

scan-emit : (f n : ℕ) (rest : String) → n < f → scan false 0 (emit f n rest) ≡ scan true n rest
unfolding emit
scan-emit zero n rest h = elim h [ ]
scan-emit (suc f) n rest h = ground (
  arith,
  scan-digit false 0 n rest,
  scan-emit f (n / 10) (String.◌∷◌ (digit_char (n % 10)) rest),
  scan-digit true (n / 10) (n % 10) rest,
)

-- Texts of digits alone, at least one.
abbrev pub all_digits : String → Bool
all_digits String.[] = true
all_digits (String.◌∷◌ c s) = is_digit c && all_digits s

all_digits-emit :
    (f n : ℕ) (rest : String) → all_digits rest ≡ true → all_digits (emit f n rest) ≡ true
unfolding emit
all_digits-emit zero n rest h = h
all_digits-emit (suc f) n rest h = ground (
  arith,
  code-digit_char n,
  code-digit_char (n % 10),
  all_digits-emit f (n / 10) (String.◌∷◌ (digit_char (n % 10)) rest),
)

is_empty-emit : (f n : ℕ) (rest : String) → is_empty rest ≡ false → is_empty (emit f n rest) ≡ false
unfolding emit
is_empty-emit zero n rest h = h
is_empty-emit (suc f) n rest h =
    ground (arith, is_empty-emit f (n / 10) (String.◌∷◌ (digit_char (n % 10)) rest))

rstrip-digits : (s : String) → all_digits s ≡ true → rstrip s ≡ s
unfolding is_space
rstrip-digits String.[] h = refl
rstrip-digits (String.◌∷◌ c s) h = ground (arith, rstrip-digits s)

strip-digits : (s : String) → all_digits s ≡ true → strip s ≡ s
unfolding strip is_space
strip-digits String.[] h = refl
strip-digits (String.◌∷◌ c s) h = ground (arith, rstrip-digits s)

pub all_digits-show : (n : ℕ) → all_digits (show n) ≡ true
unfolding show
all_digits-show n = all_digits-emit (suc n) n String.[] refl

pub strip-show : (n : ℕ) → strip (show n) ≡ show n
strip-show n = strip-digits (show n) (all_digits-show n)

pub show-nonempty : (n : ℕ) → is_empty (show n) ≡ false
unfolding show emit
show-nonempty n =
    ground (arith, is_empty-emit n (n / 10) (String.◌∷◌ (digit_char (n % 10)) String.[]))

signed-digits :
    (s : String) (n : ℕ) → all_digits s ≡ true → scan false 0 s ≡ some n → signed s ≡ some (pos n)
unfolding signed
signed-digits String.[] n h e = unfold scan in ground arith
signed-digits (String.◌∷◌ c s) n h e = ground arith

pub int-show : (n : ℕ) → int (show n) ≡ some (pos n)
unfolding int
int-show n =
    ap signed (strip-show n)
    ∙ signed-digits (show n) n (all_digits-show n)
        (unfold show in scan-emit (suc n) n String.[] (omega arith) ∙ (unfold scan in refl))
