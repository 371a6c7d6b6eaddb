-- ===== src/Chat/Tags.antt =====
-- The message filter of `_strAction`, `replace(/<\/?[^>]*>/g, '')`.
use cmoon.Base.{
  ℕ, ◌≡◌, ◌↔◌, refl, subst, Bool, true, false, ◌&&◌, ◌||◌, [], ◌∷◌, ◌==◌, if◌then◌else◌, Text,
  arith,
}

abbrev pub has : ℕ → Text → Bool
has c [] = false
has c (d ∷ s) = d == c || has c s

-- Inside a match (`true`) everything up to the next `>` goes; outside, a `<` begins a match where
-- a `>` follows.
unfoldable pub strip_from : Bool → Text → Text
strip_from skipping [] = []
strip_from true (c ∷ s) = strip_from (if c == b'>' then false else true) s
strip_from false (c ∷ s) = elim (c == b'<' && has b'>' s) [
  | true ↦ strip_from true s
  | false ↦ c ∷ strip_from false s
]

unfoldable pub strip_tags : Text → Text
unfolding strip_from
strip_tags s = strip_from false s

-- No `<` has a `>` after it.
abbrev pub IsTagFree : Text → Type 0
IsTagFree [] = Unit
IsTagFree (c ∷ s) = ((c == b'<' && has b'>' s) ≡ false) × IsTagFree s

has-strip_from :
    (skipping : Bool) (s : Text) → has b'>' s ≡ false → has b'>' (strip_from skipping s) ≡ false
unfolding strip_from
has-strip_from skipping [] h = refl
has-strip_from true (c ∷ s) h = ground (arith, has-strip_from true s)
has-strip_from false (c ∷ s) h = ground (arith, has-strip_from false s)

strip_from-IsTagFree : (skipping : Bool) (s : Text) → IsTagFree (strip_from skipping s)
unfolding strip_from
strip_from-IsTagFree skipping [] = tt
strip_from-IsTagFree true (c ∷ s) = strip_from-IsTagFree _ s
strip_from-IsTagFree false (c ∷ s) =
    ground
      (arith, strip_from-IsTagFree true s, strip_from-IsTagFree false s, has-strip_from false s)

-- Nothing that is left reads as a tag on its own: no `<` has a `>` after it.
strip_tags-IsTagFree : (s : Text) → IsTagFree (strip_tags s)
unfolding strip_tags
strip_tags-IsTagFree s = strip_from-IsTagFree false s

strip_from_of_IsTagFree : (s : Text) → IsTagFree s → strip_from false s ≡ s
unfolding strip_from
strip_from_of_IsTagFree [] h = refl
strip_from_of_IsTagFree (c ∷ s) h = ground (arith, strip_from_of_IsTagFree s)

-- The filter leaves a text as it is exactly when no `<` of it has a `>` after it.
pub strip_tags-eq_iff : (s : Text) → (strip_tags s ≡ s) ↔ IsTagFree s
unfolding strip_tags
strip_tags-eq_iff s =
    (λ e. subst IsTagFree e (strip_from-IsTagFree false s), strip_from_of_IsTagFree s)

IsTagFree-of_unclosed : (s : Text) → has b'>' s ≡ false → IsTagFree s
IsTagFree-of_unclosed [] h = tt
IsTagFree-of_unclosed (c ∷ s) h = ground (arith, IsTagFree-of_unclosed s)

-- A text with no `>` passes the filter whole, an opening tag that it begins included.
strip_tags_of_unclosed : (s : Text) → has b'>' s ≡ false → strip_tags s ≡ s
strip_tags_of_unclosed s h = (strip_tags-eq_iff s).1 (IsTagFree-of_unclosed s h)
