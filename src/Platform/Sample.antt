-- ===== src/Platform/Sample.antt =====
-- A platform that can be run: tokens are their claims, written out; a hash is its text. It shows
-- that the behaviour that `VerifiesClaims` asks for can be had.
use Prim.Native.Char.{Char, code}
use todo_api.Base.{
  ℕ, zero, suc, String, Bool, true, false, not, ◌&&◌, ◌≡◌, ◌+◌, ◌==◌, nat_eq, string_eq, refl, ap,
  ◌∙◌, arith, Option, none, some, List, [], ◌∷◌, if◌then◌else◌,
}
use todo_api.Platform.{
  Platform, Value, text, datetime, numeric_date, Claims, in_seconds, encoded, verifies,
  VerifiesClaims,
}

-- A text, each character behind a mark.
write_text : String → String → String
write_text String.[] rest = rest
write_text (String.◌∷◌ c s) rest = String.◌∷◌ "c" (String.◌∷◌ c (write_text s rest))

write_number : ℕ → String → String
write_number zero rest = rest
write_number (suc n) rest = String.◌∷◌ "i" (write_number n rest)

write_value : Value → String → String
unfolding write_text write_number
write_value (text s) rest = write_text s (String.◌∷◌ "t" rest)
write_value (datetime n) rest = write_number n (String.◌∷◌ "n" rest)
write_value (numeric_date n) rest = write_number n (String.◌∷◌ "n" rest)

write_claims : Claims → String
unfolding write_value
write_claims [] = String.[]
write_claims ((k, v) ∷ c) =
    String.◌∷◌ "(" (write_text k (String.◌∷◌ "k" (write_value v (write_claims c))))

-- What has been read of a token, from its end.
record Reading : Type 0 where
  chars : String
  ticks : ℕ
  is_number : Bool
  value : Value
  claims : Claims

abbrev blank : Reading
blank = record { chars = ""; ticks = 0; is_number = false; value = text ""; claims = [] }

abbrev step : Bool → Char → Reading → Reading
step true c r = record r { chars = String.◌∷◌ c r.chars }
step false c r =
    if code c == b'c'
    then r
    else if code c == b'i'
    then record r { ticks = suc r.ticks }
    else if code c == b't'
    then record r { chars = ""; is_number = false }
    else if code c == b'n'
    then record r { ticks = 0; is_number = true }
    else if code c == b'k'
    then record r { chars = ""; value = if r.is_number then numeric_date r.ticks else text r.chars }
    else record r { claims = (r.chars, r.value) ∷ r.claims }

read : Bool → String → Reading
read quoted String.[] = blank
read quoted (String.◌∷◌ c s) = step quoted c (read (not quoted && code c == b'c') s)

append_chars : String → Reading → Reading
append_chars String.[] r = r
append_chars (String.◌∷◌ c s) r = step true c (append_chars s r)

read-write_text :
    (s rest : String) → read false (write_text s rest) ≡ append_chars s (read false rest)
unfolding read write_text append_chars
read-write_text String.[] rest = refl
read-write_text (String.◌∷◌ c s) rest = ap (step true c) (read-write_text s rest)

append_chars_blank :
    (s : String) (r : Reading) → r.chars ≡ "" → append_chars s r ≡ record r { chars = s }
unfolding append_chars
append_chars_blank String.[] r h = ground arith
append_chars_blank (String.◌∷◌ c s) r h = rw (append_chars_blank s r h)

read-write_number :
    (n : ℕ) (rest : String)
    → read false (write_number n rest)
      ≡ record (read false rest) { ticks = n + (read false rest).ticks }
unfolding read write_number
read-write_number zero rest = ground arith
read-write_number (suc n) rest = rw (read-write_number n rest) (ground arith)

read-key :
    (k tail : String)
    → read false (write_text k (String.◌∷◌ "k" tail)) ≡ (
        let r = read false tail in
        record r { chars = k; value = if r.is_number then numeric_date r.ticks else text r.chars })
unfolding read
read-key k tail =
    read-write_text k (String.◌∷◌ "k" tail)
    ∙ append_chars_blank k (read false (String.◌∷◌ "k" tail)) refl

read-text :
    (s tail : String)
    → read false (write_text s (String.◌∷◌ "t" tail))
      ≡ record (read false tail) { chars = s; is_number = false }
unfolding read
read-text s tail =
    read-write_text s (String.◌∷◌ "t" tail)
    ∙ append_chars_blank s (read false (String.◌∷◌ "t" tail)) refl

read-number :
    (n : ℕ) (tail : String)
    → read false (write_number n (String.◌∷◌ "n" tail))
      ≡ record (read false tail) { ticks = n; is_number = true }
unfolding read
read-number n tail = read-write_number n (String.◌∷◌ "n" tail) ∙ (ground arith)

read-value :
    (k : String) (v : Value) (tail : String)
    → (read false
        (String.◌∷◌ "(" (write_text k (String.◌∷◌ "k" (write_value (in_seconds v) tail))))).claims
      ≡ (k, in_seconds v) ∷ (read false tail).claims
unfolding read write_value
read-value k (text s) tail = rw (read-key, read-text)
read-value k (datetime t) tail = rw (read-key, read-number)
read-value k (numeric_date n) tail = rw (read-key, read-number)

read-write_claims : (c : Claims) → (read false (write_claims (encoded c))).claims ≡ encoded c
unfolding write_claims
read-write_claims [] = unfold read in refl
read-write_claims ((k, v) ∷ c) =
    read-value k v (write_claims (encoded c))
    ∙ ap (λ r. (k, in_seconds v) ∷ r) (read-write_claims c)

unfoldable pub decode_sample : String → String → List String → ℕ → String → Option Claims
unfolding read verifies
decode_sample issuer audience required now token =
    let c = (read false token).claims in
    if verifies issuer audience required now c then some c else none

unfoldable pub encode_sample : Claims → String
unfolding write_claims
encode_sample c = write_claims (encoded c)

abbrev pub sample_platform : Platform
sample_platform = record {
  sha256_hexdigest = λ s. String.◌∷◌ "#" s;
  urlsafe_sha256 = λ s. String.◌∷◌ "~" s;
  jwt_encode = λ c key algorithm. encode_sample c;
  jwt_decode = λ token key algorithm issuer audience required now.
      decode_sample issuer audience required now token;
  hash = λ s. some (String.◌∷◌ "$" s);
  verify_and_update = λ s h. some (h == String.◌∷◌ "$" s, none);
  verify = λ s h. some (h == String.◌∷◌ "$" s);
  casefold = λ s. s;
  lower = λ value. value;
  upper = λ value. value;
  accepts_netloc = λ netloc. true;
  parse_qsl = λ query. [];
  urlencode = λ pairs. "";
}

pub sample_platform-VerifiesClaims : VerifiesClaims sample_platform
unfolding decode_sample encode_sample
sample_platform-VerifiesClaims = record {
  decode-encode = λ c key algorithm issuer audience required now. rw read-write_claims;
}
