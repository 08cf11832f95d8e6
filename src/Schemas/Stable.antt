-- ===== src/Schemas/Stable.antt =====
-- What the service is called with.
use Prim.Native.String.{count}
use todo_api.Base.{
  ℕ, String, ◌≡◌, ◌≤◌, refl, subst, if◌then◌else◌, arith, true, false, Option, none, some,
  Bool-cases, Option-cases, inl, inr,
}
use text.Mathlib.TextLemmas.{length-cons, length-nil}
use todo_api.Text.Strip.{strip_idem}
use todo_api.Text.{strip, is_empty, lstrip, rstrip}
use todo_api.Services.Todo.{TodoCreate}
use todo_api.Schemas.{validate_create, normalize_title, normalize_description, fits, fits_optional}

count-lstrip : (s : String) → count (lstrip s) ≤ count s
count-lstrip String.[] = ground (arith, length-nil)
count-lstrip (String.◌∷◌ c s) = ground (arith, count-lstrip s, length-cons c s)

count-rstrip : (s : String) → count (rstrip s) ≤ count s
count-rstrip String.[] = ground arith
count-rstrip (String.◌∷◌ c s) =
    ground (arith, count-rstrip s, length-cons c s, length-cons c (rstrip s), length-nil)

count-strip : (s : String) → count (strip s) ≤ count s
unfolding strip
count-strip s = ground (arith, count-lstrip (rstrip s), count-rstrip s)

count-some : (s : String) → is_empty s ≡ false → 1 ≤ count s
count-some String.[] h = absurd (ground arith)
count-some (String.◌∷◌ c s) h = ground (arith, length-cons c s)

fits-strip :
    (most : ℕ) (s : String)
    → fits 1 most s ≡ true
    → is_empty (strip s) ≡ false
    → fits 1 most (strip s) ≡ true
fits-strip most s h nonempty = ground (arith, count-strip s, count-some (strip s) nonempty)

normalize_title-stable : (s t : String) → normalize_title s ≡ some t → normalize_title t ≡ some t
unfolding normalize_title
normalize_title-stable s t h = elim (Bool-cases (is_empty (strip s))) [
  | inl blank ↦ absurd (ground arith)
  | inr kept ↦
      let e : strip s ≡ t = ground arith in
      subst (λ x. (if is_empty (strip x) then none else some (strip x)) ≡ some x) e
        (simp (strip_idem s, kept) refl)
]

normalize_title-fits :
    (most : ℕ) (s t : String)
    → fits 1 most s ≡ true
    → normalize_title s ≡ some t
    → fits 1 most t ≡ true
unfolding normalize_title
normalize_title-fits most s t h e = elim (Bool-cases (is_empty (strip s))) [
  | inl blank ↦ absurd (ground arith)
  | inr kept ↦
      let is : strip s ≡ t = ground arith in
      subst (λ x. fits 1 most x ≡ true) is (fits-strip most s h kept)
]

normalize_description-stable :
    (d : Option String) → normalize_description (normalize_description d) ≡ normalize_description d
unfolding normalize_description
normalize_description-stable none = refl
normalize_description-stable (some s) = elim (Bool-cases (is_empty (strip s))) [
  | inl blank ↦ simp blank refl
  | inr kept ↦ simp (kept, strip_idem s) refl
]

fits-normalize_description :
    (most : ℕ) (d : Option String)
    → fits_optional most d ≡ true
    → fits_optional most (normalize_description d) ≡ true
unfolding normalize_description
fits-normalize_description most none h = refl
fits-normalize_description most (some s) h = elim (Bool-cases (is_empty (strip s))) [
  | inl blank ↦ simp blank refl
  | inr kept ↦ simp kept (ground (arith, count-strip s))
]

revalidated :
    (x : TodoCreate)
    → fits 1 200 x.title ≡ true
    → fits_optional 5000 x.description ≡ true
    → normalize_title x.title ≡ some x.title
    → normalize_description x.description ≡ x.description
    → validate_create x ≡ some x
unfolding validate_create
revalidated x short short' title description = ground arith

-- A new todo that passes its schema passes it again, and is not changed a second time.
pub validate_create-stable :
    (sent out : TodoCreate) → validate_create sent ≡ some out → validate_create out ≡ some out
unfolding validate_create
validate_create-stable sent out h = elim (Bool-cases (fits 1 200 sent.title)) [
  | inr long ↦ absurd (ground arith)
  | inl short ↦ elim (Bool-cases (fits_optional 5000 sent.description)) [
    | inr long ↦ absurd (ground arith)
    | inl short' ↦ elim (Option-cases (normalize_title sent.title)) [
      | inl blank ↦ absurd (ground arith)
      | inr (title, kept) ↦
          let made : record sent {
            title = title;
            description = normalize_description sent.description;
          }
              ≡ out =
            ground arith in
          subst (λ x. validate_create x ≡ some x) made
            (revalidated
              (record sent { title = title; description = normalize_description sent.description })
              (normalize_title-fits 200 sent.title title short kept)
              (fits-normalize_description 5000 sent.description short')
              (normalize_title-stable sent.title title kept)
              (normalize_description-stable sent.description))
    ]
  ]
]
