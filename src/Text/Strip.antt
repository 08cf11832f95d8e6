-- ===== src/Text/Strip.antt =====
-- `str.strip` leaves no white space at either end, and a second call changes nothing.
use Prim.Native.Char.{Char}
use todo_api.Base.{String, ◌≡◌, ◌∙◌, ap, refl, arith, true, false, Bool-cases, inl, inr}
use todo_api.Text.{is_empty, is_space_char, lstrip, rstrip, rstrip_cons, strip}

lstrip_idem : (s : String) → lstrip (lstrip s) ≡ lstrip s
lstrip_idem String.[] = refl
lstrip_idem (String.◌∷◌ c s) = ground (arith, lstrip_idem s)

rstrip_idem : (s : String) → rstrip (rstrip s) ≡ rstrip s
rstrip_idem String.[] = refl
rstrip_idem (String.◌∷◌ c s) = ground (arith, rstrip_idem s)

lstrip-rstrip_cons :
    (c : Char) (r : String) → is_space_char c ≡ true → lstrip (rstrip_cons c r) ≡ lstrip r
lstrip-rstrip_cons c String.[] h = rw h
lstrip-rstrip_cons c (String.◌∷◌ d r) h = ground arith

rstrip-lstrip : (s : String) → rstrip (lstrip s) ≡ lstrip (rstrip s)
rstrip-lstrip String.[] = refl
rstrip-lstrip (String.◌∷◌ c s) = elim (Bool-cases (is_space_char c)) [
  | inl space ↦ ground (arith, rstrip-lstrip s, lstrip-rstrip_cons c (rstrip s))
  | inr other ↦ rw other (rw other)
]

pub strip_idem : (s : String) → strip (strip s) ≡ strip s
unfolding strip
strip_idem s =
    ap lstrip (rstrip-lstrip (rstrip s))
    ∙ lstrip_idem (rstrip (rstrip s))
    ∙ ap lstrip (rstrip_idem s)

-- A text that is not blank after `strip` begins with no white space.
pub strip-nonblank : (s : String) → is_empty (strip s) ≡ false → is_empty (strip (strip s)) ≡ false
strip-nonblank s h = rw strip_idem h
