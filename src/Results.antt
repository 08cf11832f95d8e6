-- ===== src/Results.antt =====
-- A result of code that may raise, with the chain of such results.
use todo_api.Base.{Bool, true, false, Option, none, some, ◌≡◌, ◌⊎◌, inl, inr, refl}
use todo_api.Exceptions.{Raised}

pub data Result (A : Type 0) : Type 0 where
  ok : A → Result A
  err : Raised → Result A

infixl 5 ◌>>=◌ ◌>>◌
abbrev pub ◌>>=◌ : {A B : Type 0} → Result A → (A → Result B) → Result B
ok a >>= f = f a
err e >>= f = err e

abbrev pub ◌>>◌ : {B : Type 0} → Result (Unit {0}) → Result B → Result B
m >> k = m >>= λ _. k

-- `if not condition: raise`
abbrev pub ensure : Bool → Raised → Result (Unit {0})
ensure true e = ok tt
ensure false e = err e

abbrev pub or_raise : {A : Type 0} → Option A → Raised → Result A
or_raise none e = err e
or_raise (some a) e = ok a

pub Result-cases :
    {A : Type 0} (r : Result A) → ((a : A) × (r ≡ ok a)) ⊎ ((e : Raised) × (r ≡ err e))
Result-cases (ok a) = inl (a, refl)
Result-cases (err e) = inr (e, refl)

abbrev pub is_ok : {A : Type 0} → Result A → Bool
is_ok (ok a) = true
is_ok (err e) = false
