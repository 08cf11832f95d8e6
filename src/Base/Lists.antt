-- ===== src/Base/Lists.antt =====
-- Lists as database tables: the rows that satisfy a condition are found, changed, deleted and
-- counted. Conditions are Boolean tests, as the program's `where` clauses are.
use Prim.Native.String.{String}
use Prim.Native.Nat.{ℕ, zero, suc, ◌+◌, ◌-◌, min}
use mathlib.Core.Path.{◌≡◌, refl, subst, ap}
use mathlib.Core.Logic.{inl, inr}
use mathlib.Core.Bool.{Bool, true, false, not, ◌||◌}
use mathlib.Core.Option
use mathlib.Core.Option.{Option, none, some}
use mathlib.Core.List.{List, [], ◌∷◌, ◌++◌}
use native.Mathlib.Omega.{arith}
use todo_api.Base.Tests.{Bool-cases, if◌then◌else◌, ◌==◌, string_eq}

module _ {ℓ} {A : Type ℓ} where
  abbrev pub length : List A → ℕ
  length [] = 0
  length (x ∷ xs) = suc (length xs)

  abbrev pub take : ℕ → List A → List A
  take zero xs = []
  take (suc n) [] = []
  take (suc n) (x ∷ xs) = x ∷ take n xs

  abbrev pub drop : ℕ → List A → List A
  drop zero xs = xs
  drop (suc n) [] = []
  drop (suc n) (x ∷ xs) = drop n xs

  -- The first row that meets the condition.
  abbrev pub find? : (A → Bool) → List A → Option A
  find? p [] = none
  find? p (x ∷ xs) = if p x then some x else find? p xs

  -- SELECT … WHERE
  abbrev pub filter : (A → Bool) → List A → List A
  filter p [] = []
  filter p (x ∷ xs) = let rest = filter p xs in if p x then x ∷ rest else rest

  -- UPDATE … WHERE
  abbrev pub update_where : (A → Bool) → (A → A) → List A → List A
  update_where p f [] = []
  update_where p f (x ∷ xs) = (if p x then f x else x) ∷ update_where p f xs

  -- DELETE … WHERE
  abbrev pub delete_where : (A → Bool) → List A → List A
  delete_where p = filter (λ x. not (p x))

  -- SELECT count(*) … WHERE
  abbrev pub count_where : (A → Bool) → List A → ℕ
  count_where p xs = length (filter p xs)

  abbrev pub All {κ} : (A → Type κ) → List A → Type κ
  All P [] = Unit
  All P (x ∷ xs) = P x × All P xs

module _ {ℓ κ} {A : Type ℓ} (P : A → Type κ) where
  pub All-append : (xs ys : List A) → All P xs → All P ys → All P (xs ++ ys)
  All-append [] ys hx hy = hy
  All-append (x ∷ xs) ys hx hy = (hx.0, All-append xs ys hx.1 hy)

  pub All-take : (n : ℕ) (xs : List A) → All P xs → All P (take n xs)
  All-take zero xs h = tt
  All-take (suc n) [] h = tt
  All-take (suc n) (x ∷ xs) h = (h.0, All-take n xs h.1)

  pub All-drop : (n : ℕ) (xs : List A) → All P xs → All P (drop n xs)
  All-drop zero xs h = h
  All-drop (suc n) [] h = tt
  All-drop (suc n) (x ∷ xs) h = All-drop n xs h.1

module _ {A : Type 0} where
  pub All-map : {P Q : A → Type 0} (f : (x : A) → P x → Q x) (xs : List A) → All P xs → All Q xs
  All-map f [] h = tt
  All-map f (x ∷ xs) h = (f x h.0, All-map f xs h.1)

  -- The size of a page.
  pub length-page :
      (limit offset : ℕ) (xs : List A)
      → length (take limit (drop offset xs)) ≡ min limit (length xs - offset)
  length-page zero zero xs = omega arith
  length-page (suc n) zero [] = omega arith
  length-page (suc n) zero (x ∷ xs) = omega (arith, length-page n zero xs)
  length-page zero (suc k) [] = omega arith
  length-page (suc n) (suc k) [] = omega arith
  length-page n (suc k) (x ∷ xs) = omega (arith, length-page n k xs)

module _ {A : Type 0} (P : A → Type 0) (p : A → Bool) where
  if-All : (b : Bool) (x : A) (xs : List A) → P x → All P xs → All P (if b then x ∷ xs else xs)
  if-All true x xs h t = (h, t)
  if-All false x xs h t = t

  pub All-filter : (xs : List A) → All P xs → All P (filter p xs)
  All-filter [] h = tt
  All-filter (x ∷ xs) h = if-All (p x) x (filter p xs) h.0 (All-filter xs h.1)

  -- What is found has the property of all rows.
  pub find?-All : (xs : List A) (a : A) → All P xs → find? p xs ≡ some a → P a
  find?-All [] a h e = absurd (ground arith)
  find?-All (x ∷ xs) a h e = elim (Bool-cases (p x)) [
    | inl hit ↦ let i : x ≡ a = ground (arith) in subst P i h.0
    | inr miss ↦ find?-All xs a h.1 (rw miss at e)
  ]

  -- A changed row has to have the property only where it met the condition.
  pub All-update_where :
      (f : A → A) (xs : List A)
      → ((x : A) → P x → p x ≡ true → P (f x))
      → All P xs
      → All P (update_where p f xs)
  All-update_where f [] step h = tt
  All-update_where f (x ∷ xs) step h = elim (Bool-cases (p x)) [
    | inl hit ↦ rw hit (step x h.0 hit, All-update_where f xs step h.1)
    | inr miss ↦ rw miss (h.0, All-update_where f xs step h.1)
  ]

module _ {A : Type 0} (p : A → Bool) where
  -- What is found meets the condition.
  pub find?-meets : (xs : List A) (a : A) → find? p xs ≡ some a → p a ≡ true
  find?-meets [] a e = absurd (ground arith)
  find?-meets (x ∷ xs) a e = elim (Bool-cases (p x)) [
    | inl hit ↦ let i : x ≡ a = ground (arith) in subst (λ y. p y ≡ true) i hit
    | inr miss ↦ find?-meets xs a (rw miss at e)
  ]

  -- Every row that a filter keeps meets its condition.
  pub filter-meets : (xs : List A) → All (λ x. p x ≡ true) (filter p xs)
  filter-meets [] = tt
  filter-meets (x ∷ xs) = elim (Bool-cases (p x)) [
    | inl hit ↦ rw hit (hit, filter-meets xs)
    | inr miss ↦ rw miss (filter-meets xs)
  ]

  -- The rows kept and the rows deleted are all the rows.
  pub count-add-delete : (xs : List A) → count_where p xs + length (delete_where p xs) ≡ length xs
  count-add-delete [] = omega arith
  count-add-delete (x ∷ xs) = ground (arith, count-add-delete xs)

  -- A second deletion by the same condition finds nothing.
  pub count-delete : (xs : List A) → count_where p (delete_where p xs) ≡ 0
  count-delete [] = refl
  count-delete (x ∷ xs) = ground (arith, count-delete xs)

  pub length-update_where : (f : A → A) (xs : List A) → length (update_where p f xs) ≡ length xs
  length-update_where f [] = refl
  length-update_where f (x ∷ xs) = ap suc (length-update_where f xs)

  -- An update that ends the condition leaves no row that meets it.
  pub count-update_where :
      (f : A → A) (xs : List A)
      → ((x : A) → p x ≡ true → p (f x) ≡ false)
      → count_where p (update_where p f xs) ≡ 0
  count-update_where f [] h = refl
  count-update_where f (x ∷ xs) h = ground (arith, h x, count-update_where f xs h)

  pub delete-count : (xs : List A) → count_where p xs ≡ 0 → delete_where p xs ≡ xs
  delete-count [] e = refl
  delete-count (x ∷ xs) e = elim (Bool-cases (p x)) [
    | inl hit ↦ absurd (ground arith)
    | inr miss ↦ ground (arith, delete-count xs)
  ]

  pub update_where-count :
      (f : A → A) (xs : List A) → count_where p xs ≡ 0 → update_where p f xs ≡ xs
  update_where-count f [] e = refl
  update_where-count f (x ∷ xs) e = elim (Bool-cases (p x)) [
    | inl hit ↦ absurd (ground arith)
    | inr miss ↦ ground (arith, update_where-count f xs)
  ]

module _ {A : Type 0} (q p : A → Bool) (f : A → A) where
  -- A search by a condition that the update does not touch finds the updated row.
  pub find?-update_where :
      (xs : List A)
      → ((x : A) → q (f x) ≡ q x)
      → find? q (update_where p f xs) ≡ Option.map (λ x. if p x then f x else x) (find? q xs)
  find?-update_where [] h = refl
  find?-update_where (x ∷ xs) h = ground (arith, h x, find?-update_where xs h)

-- `value in values`
abbrev pub is_in : String → List String → Bool
is_in s [] = false
is_in s (t ∷ ts) = t == s || is_in s ts
