-- ===== src/Cache/Keys.antt =====
-- The owner of a cached read, by its key.
use todo_api.Base.{
  ℕ, String, ◌≡◌, ◌∙◌, sym, ap, arith, true, ◌==◌, nat_eq, Option, some, none, Bool-cases, inl, inr,
}
use text.Mathlib.TextLemmas.{nil-append, cons-append, append_assoc, append_cancel_left}
use todo_api.Text.{◌<>◌}
use todo_api.Text.Split.{cut}
use todo_api.Text.Decimal.{ℤ, show, pos, int}
use todo_api.Text.Decimal.RoundTrip.{int-show, all_digits, all_digits-show}
use todo_api.Results.{ok}
use todo_api.Platform.{Platform}
use todo_api.Cache.{KeyData, todo_cache_key_builder, user_namespace}

cut-digits : (s t : String) → all_digits s ≡ true → cut b':' (s <> String.◌∷◌ ":" t) ≡ some (s, t)
unfolding cut
cut-digits String.[] t h = ap (cut b':') (nil-append (String.◌∷◌ ":" t))
cut-digits (String.◌∷◌ c s) t h =
    ap (cut b':') (cons-append c s (String.◌∷◌ ":" t)) ∙ (ground (arith, cut-digits s t))

abbrev natural : Option ℤ → ℕ
natural (some (pos n)) = n
natural _ = 0

show-injective : (m n : ℕ) → show m ≡ show n → m ≡ n
show-injective m n h = ap natural (sym (int-show m) ∙ ap int h ∙ int-show n)

abbrev first : Option (String × String) → String
first none = String.[]
first (some (s, t)) = s

first-owner :
    (m n : ℕ) (a b : String) → show m <> String.◌∷◌ ":" a ≡ show n <> String.◌∷◌ ":" b → m ≡ n
first-owner m n a b h = show-injective m n (
    ap first (sym (cut-digits (show m) a (all_digits-show m)))
    ∙ ap (λ s. first (cut b':' s)) h
    ∙ ap first (cut-digits (show n) b (all_digits-show n)))

colon : (a : String) → ":" <> a ≡ String.◌∷◌ ":" a
colon a = cons-append ":" String.[] a ∙ ap (String.◌∷◌ ":") (nil-append a)

-- A key from the number on.
behind_namespace :
    (namespace : String) (n : ℕ) (a : String)
    → user_namespace namespace n <> (":" <> a)
      ≡ namespace <> (":user:" <> (show n <> String.◌∷◌ ":" a))
behind_namespace namespace n a =
    append_assoc namespace (":user:" <> show n) (":" <> a)
    ∙ ap (λ s. namespace <> s) (append_assoc ":user:" (show n) (":" <> a))
    ∙ ap (λ s. namespace <> (":user:" <> (show n <> s))) (colon a)

same-owner :
    (namespace : String) (m n : ℕ) (a b : String)
    → user_namespace namespace m <> (":" <> a) ≡ user_namespace namespace n <> (":" <> b)
    → m ≡ n
same-owner namespace m n a b h = first-owner m n a b (
    append_cancel_left ":user:" _ _ (
      append_cancel_left namespace _ _
        (sym (behind_namespace namespace m a) ∙ h ∙ behind_namespace namespace n b)))

-- Two reads that have the same key under the same namespace are reads of the same user, whatever the
-- namespace, the queries and the hash function: fastapi-cache puts a prefix before the program's own
-- namespace, and it is the same prefix for all keys.
pub todo_cache_key_builder-owner :
    (p : Platform) (dumps : KeyData → String) (namespace : String) (u v : Option ℕ) (d e : KeyData)
    (key : String)
    → todo_cache_key_builder p dumps namespace u d ≡ ok key
    → todo_cache_key_builder p dumps namespace v e ≡ ok key
    → u ≡ v
unfolding todo_cache_key_builder
todo_cache_key_builder-owner p dumps namespace none v d e key hu hv = absurd (ground arith)
todo_cache_key_builder-owner p dumps namespace (some m) none d e key hu hv = absurd (ground arith)
todo_cache_key_builder-owner p dumps namespace (some m) (some n) d e key hu hv =
    let digest : KeyData → String = λ x. p.sha256_hexdigest (dumps x) in
    elim (Bool-cases (m == 0)) [
      | inl zero ↦ absurd (ground arith)
      | inr some_m ↦ elim (Bool-cases (n == 0)) [
        | inl zero ↦ absurd (ground arith)
        | inr some_n ↦ ap some (same-owner namespace m n (digest d) (digest e) (ground arith))
      ]
    ]
