-- ===== src/Text/Html.antt =====
-- `html.escape` of Python, with quotation marks.
use Prim.Native.Char.{Char, code}
use todo_api.Base.{
  ℕ, String, ◌≡◌, ap, ◌∙◌, refl, arith, Bool, true, false, ◌||◌, ◌==◌, nat_eq, if◌then◌else◌,
}
use text.Mathlib.TextLemmas.{nil-append, cons-append}
use todo_api.Text.{◌<>◌}
use todo_api.Text.Split.{contains_char}

-- What stands for a character: a quotation mark, a sign, any other.
abbrev escape_quote : Char → String
escape_quote c =
    if code c == b'"' then "&quot;" else if code c == 39 then "&#x27;" else String.◌∷◌ c String.[]

abbrev escape_sign : Char → String
escape_sign c = if code c == b'<' then "&lt;" else if code c == b'>' then "&gt;" else escape_quote c

abbrev escape_char : Char → String
escape_char c = if code c == b'&' then "&amp;" else escape_sign c

unfoldable pub escape : String → String
escape String.[] = String.[]
escape (String.◌∷◌ c s) = escape_char c <> escape s

-- The characters that could end an attribute or a text of the page.
abbrev pub is_markup : ℕ → Bool
is_markup k = k == b'<' || k == b'>' || k == b'"' || k == 39

pub contains_char-append :
    (k : ℕ) (s t : String) → contains_char k (s <> t) ≡ (contains_char k s || contains_char k t)
unfolding contains_char
contains_char-append k String.[] t = ap (contains_char k) (nil-append t)
contains_char-append k (String.◌∷◌ c s) t =
    ap (contains_char k) (cons-append c s t) ∙ (ground (arith, contains_char-append k s t))

contains_char-if :
    (k : ℕ) (b : Bool) (s t : String)
    → (b ≡ true → contains_char k s ≡ false)
    → (b ≡ false → contains_char k t ≡ false)
    → contains_char k (if b then s else t) ≡ false
contains_char-if k true s t first second = first refl
contains_char-if k false s t first second = second refl

contains_char-escape_quote :
    (k : ℕ) (c : Char)
    → is_markup k ≡ true
    → (code c == b'<') ≡ false
    → (code c == b'>') ≡ false
    → contains_char k (escape_quote c) ≡ false
unfolding contains_char
contains_char-escape_quote k c h lower greater =
    contains_char-if k (code c == b'"') "&quot;"
      (if code c == 39 then "&#x27;" else String.◌∷◌ c String.[]) (λ is. ground arith)
      λ other.
        contains_char-if k (code c == 39) "&#x27;" (String.◌∷◌ c String.[]) (λ is. ground arith)
          λ other'. ground arith

contains_char-escape_char :
    (k : ℕ) (c : Char) → is_markup k ≡ true → contains_char k (escape_char c) ≡ false
unfolding contains_char
contains_char-escape_char k c h =
    contains_char-if k (code c == b'&') "&amp;" (escape_sign c) (λ is. ground arith)
      λ other.
        contains_char-if k (code c == b'<') "&lt;"
          (if code c == b'>' then "&gt;" else escape_quote c) (λ is. ground arith)
          λ other.
            contains_char-if k (code c == b'>') "&gt;" (escape_quote c) (λ is. ground arith)
              λ other'. contains_char-escape_quote k c h other other'

-- Escaped text holds none of them.
pub contains_char-escape :
    (k : ℕ) (s : String) → is_markup k ≡ true → contains_char k (escape s) ≡ false
unfolding escape contains_char
contains_char-escape k String.[] h = refl
contains_char-escape k (String.◌∷◌ c s) h =
    contains_char-append k (escape_char c) (escape s)
    ∙ ground (arith, contains_char-escape_char k c h, contains_char-escape k s h)
