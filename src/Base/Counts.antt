-- ===== src/Base/Counts.antt =====
-- How many rows have a property, and updates that take it away.
use Prim.Native.Nat.{◌≤◌}
use mathlib.Core.Path.{◌≡◌, refl, subst}
use mathlib.Core.Logic.{inl, inr}
use mathlib.Core.Bool.{Bool, true, false}
use mathlib.Core.Option.{none, some}
use mathlib.Core.List.{List, [], ◌∷◌}
use native.Mathlib.Omega.{arith}
use todo_api.Base.Tests.{Bool-cases}
use todo_api.Base.Lists.{find?, count_where, update_where}

module _ {A : Type 0} (p : A → Bool) where
  pub find?-count : (xs : List A) → count_where p xs ≡ 0 → find? p xs ≡ none
  find?-count [] e = refl
  find?-count (x ∷ xs) e = elim (Bool-cases (p x)) [
    | inl hit ↦ absurd (ground arith)
    | inr miss ↦ ground (arith, find?-count xs)
  ]

  -- Where no row has a property, a found row has not.
  pub count-found :
      (q : A → Bool) (xs : List A) (a : A)
      → count_where p xs ≡ 0
      → find? q xs ≡ some a
      → p a ≡ false
  count-found q [] a e found = absurd (ground arith)
  count-found q (x ∷ xs) a e found = elim (Bool-cases (p x)) [
    | inl hit ↦ absurd (ground arith)
    | inr miss ↦ elim (Bool-cases (q x)) [
      | inl here ↦ let i : x ≡ a = ground arith in subst (λ y. p y ≡ false) i miss
      | inr later ↦ count-found q xs a (ground arith) (rw later at found)
    ]
  ]

  module _ (k : A → Bool) (f : A → A) (cleared : (x : A) → k x ≡ true → p (f x) ≡ false) where
    count-kept : (xs : List A) → count_where p xs ≡ 0 → count_where p (update_where k f xs) ≡ 0
    count-kept [] e = refl
    count-kept (x ∷ xs) e = elim (Bool-cases (p x)) [
      | inl hit ↦ absurd (ground arith)
      | inr miss ↦ elim (Bool-cases (k x)) [
        | inl here ↦ ground (arith, cleared x here, count-kept xs)
        | inr other ↦ ground (arith, count-kept xs)
      ]
    ]

    -- If one row at most has a property, and an update takes it from a row that has it, none has it
    -- behind the update.
    pub count-taken :
        (q : A → Bool) (xs : List A) (a : A)
        → count_where p xs ≤ 1
        → find? q xs ≡ some a
        → p a ≡ true
        → k a ≡ true
        → count_where p (update_where k f xs) ≡ 0
    count-taken q [] a one found has takes = refl
    count-taken q (x ∷ xs) a one found has takes = elim (Bool-cases (q x)) [
      | inl here ↦
          let i : a ≡ x = ground arith in
          let px : p x ≡ true = subst (λ y. p y ≡ true) i has in
          let kx : k x ≡ true = subst (λ y. k y ≡ true) i takes in
          let none_left : count_where p xs ≡ 0 = ground arith in
          ground (arith, cleared x kx, count-kept xs none_left)
      | inr later ↦ elim (Bool-cases (p x)) [
        | inl hit ↦
            let none_left : count_where p xs ≡ 0 = ground arith in
            absurd (ground (arith, count-found q xs a none_left (rw later at found)))
        | inr miss ↦
            let rest = count-taken q xs a (ground arith) (rw later at found) has takes in
            elim (Bool-cases (k x)) [
              | inl over ↦ ground (arith, cleared x over, rest)
              | inr other ↦ ground (arith, rest)
            ]
      ]
    ]
