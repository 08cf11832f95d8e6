-- ===== src/Text/Markup.antt =====
-- The markup of a text, and what escaped text does to it.
use Prim.Native.Char.{Char, code}
use todo_api.Base.{
  ℕ, String, ◌≡◌, ◌∙◌, refl, sym, ap, arith, Bool, true, false, not, Bool-cases, inl, inr,
  if◌then◌else◌, nat_eq,
}
use text.Mathlib.TextLemmas.{nil-append, cons-append}
use todo_api.Text.{◌<>◌}
use todo_api.Text.Split.{contains_char, without_chars}
use todo_api.Text.Html.{escape, is_markup, contains_char-escape}

-- The characters that begin or end a tag or an attribute's value, in their order.
unfoldable pub markup : String → String
unfolding without_chars
markup s = without_chars (λ k. not (is_markup k)) s

abbrev kept : Bool → Char → String → String
kept b c s = if not b then s else String.◌∷◌ c s

kept-append : (b : Bool) (c : Char) (s t : String) → kept b c (s <> t) ≡ kept b c s <> t
kept-append true c s t = sym (cons-append c s t)
kept-append false c s t = refl

markup-append : (s t : String) → markup (s <> t) ≡ markup s <> markup t
unfolding markup without_chars
markup-append String.[] t = ap markup (nil-append t) ∙ sym (nil-append (markup t))
markup-append (String.◌∷◌ c s) t =
    ap markup (cons-append c s t)
    ∙ ap (kept (is_markup (code c)) c) (markup-append s t)
    ∙ kept-append (is_markup (code c)) c (markup s) (markup t)

markup-without :
    (s : String) → ((k : ℕ) → is_markup k ≡ true → contains_char k s ≡ false) → markup s ≡ String.[]
unfolding markup without_chars contains_char
markup-without String.[] h = refl
markup-without (String.◌∷◌ c s) h =
    let rest : markup s ≡ String.[] = markup-without s (λ k m. ground (arith, h k m)) in
    elim (Bool-cases (is_markup (code c))) [
      | inl mark ↦ absurd (ground (arith, h (code c) mark))
      | inr text ↦ ap (λ b. kept b c (markup s)) text ∙ rest
    ]

markup-escape : (s : String) → markup (escape s) ≡ String.[]
markup-escape s = markup-without (escape s) (λ k. contains_char-escape k s)

pub join :
    (s s' t t' : String)
    → markup s ≡ markup s'
    → markup t ≡ markup t'
    → markup (s <> t) ≡ markup (s' <> t')
join s s' t t' first second =
    markup-append s t
    ∙ ap (λ m. m <> markup t) first
    ∙ ap (λ m. markup s' <> m) second
    ∙ sym (markup-append s' t')

pub escaped : (s t : String) → markup (escape s) ≡ markup (escape t)
escaped s t = markup-escape s ∙ sym (markup-escape t)
