-- ===== src/Router/Globs.antt =====
-- What a route's path means, independently of the regular expressions, and that the text tests of
-- the router decide it.
use mini_api_gateway.Common.{
  ◌≡◌, refl, sym, ap, ◌∙◌, ◌≢◌, ◌↔◌, ◌⊎◌, inl, inr, Bool, true, false, not, Option, none, some, [],
  ◌∷◌, ◌++◌, ◌==◌, all, Text, text, text_eq, ends_with, strip_prefix, drop_last, arith, Bool-cases,
  text_eq_iff, ends_with_sound, ends_with-append, drop_last-append, strip_prefix_sound,
  strip_prefix-append, strip_prefix_self, if◌then◌else◌, append-nil, All,
}
use mini_api_gateway.Router.Regex.{is_below, is_tail}

-- The path is the base itself, or a path below it without a line feed.
abbrev pub Below : Text → Text → Type 0
Below base path =
    (path ≡ base) ⊎ ((rest : Text) × (path ≡ base ++ b'/' ∷ rest) × All (λ c. c ≢ 10) rest)

-- A pattern with a wild card at its end, over the base before it.
abbrev pub IsGlob : Text → Text → Type 0
IsGlob base pattern = (pattern ≡ base ++ text "/**") ⊎ (pattern ≡ base ++ text "/*")

abbrev pub PathMatches : Text → Text → Type 0
PathMatches pattern path =
    ((base : Text) × IsGlob base pattern × Below base path)
    ⊎ (((base : Text) → ¬ IsGlob base pattern) × (path ≡ pattern))

all_iff : (s : Text) → (all (λ c. not (c == 10)) s ≡ true) ↔ All (λ c. c ≢ 10) s
all_iff [] = ((λ _. tt), λ _. refl)
all_iff (c ∷ s) = ground (arith, all_iff s)

tail_sound :
    (base path : Text) (o : Option Text)
    → strip_prefix path base ≡ o
    → is_tail o ≡ true
    → Below base path
tail_sound base path none e h = cc
tail_sound base path (some []) e h = inl (strip_prefix_sound path base e ∙ append-nil base)
tail_sound base path (some (c ∷ rest)) e h =
    let slash : c ≡ b'/' = ground arith in
    inr (
      rest,
      strip_prefix_sound path base e ∙ ap (λ x. base ++ x ∷ rest) slash,
      (all_iff rest).0 (ground arith),
    )

-- The router's regular expression matches what is below the base.
pub is_below_iff : (base path : Text) → (is_below base path ≡ true) ↔ Below base path
unfolding is_below
is_below_iff base path = (tail_sound base path (strip_prefix path base) refl, complete)
  where
    complete : Below base path → is_tail (strip_prefix path base) ≡ true
    complete (inl e) = rw (e, strip_prefix_self base)
    complete (inr (rest, e, free)) =
        rw (e, strip_prefix-append base (b'/' ∷ rest)) ((all_iff rest).1 free)

tail-nonempty : (base : Text) → text_eq (base ++ text "/*") [] ≡ false
unfolding text text_eq
tail-nonempty [] = refl
tail-nonempty (x ∷ base) = refl

-- The two wild cards exclude one another.
ends_with-star : (base : Text) → ends_with (base ++ text "/*") (text "/**") ≡ false
unfolding ends_with text text_eq
ends_with-star [] = refl
ends_with-star (x ∷ []) = ground arith
ends_with-star (x ∷ y ∷ []) = ground (arith, ends_with-star (y ∷ []))
ends_with-star (x ∷ y ∷ z ∷ base) =
    ground (arith, ends_with-star (y ∷ z ∷ base), tail-nonempty base)

drop_globs : (base : Text) → drop_last 3 (base ++ text "/**") ≡ base
unfolding text
drop_globs base = drop_last-append base (text "/**")

drop_glob : (base : Text) → drop_last 2 (base ++ text "/*") ≡ base
unfolding text
drop_glob base = drop_last-append base (text "/*")

-- A choice by the wild card of a pattern: on the base before it, or without one.
abbrev pub by_glob : Text → (Text → Bool) → Bool → Bool
by_glob pattern on_base plain =
    if ends_with pattern (text "/**")
    then on_base (drop_last 3 pattern)
    else if ends_with pattern (text "/*")
    then on_base (drop_last 2 pattern)
    else plain

pub by_glob-glob :
    (base pattern : Text) (on_base : Text → Bool) (plain : Bool)
    → IsGlob base pattern
    → by_glob pattern on_base plain ≡ on_base base
by_glob-glob base pattern on_base plain (inl e) =
    rw (e, ends_with-append base (text "/**"), drop_globs base)
by_glob-glob base pattern on_base plain (inr e) =
    rw (e, ends_with-star base, ends_with-append base (text "/*"), drop_glob base)

pub by_glob-plain :
    (pattern : Text) (on_base : Text → Bool) (plain : Bool)
    → ((base : Text) → ¬ IsGlob base pattern)
    → by_glob pattern on_base plain ≡ plain
by_glob-plain pattern on_base plain none' = elim (Bool-cases (ends_with pattern (text "/**"))) [
  | inl e ↦ let (b, k) = ends_with_sound _ _ e in absurd (none' b (inl k))
  | inr e ↦ elim (Bool-cases (ends_with pattern (text "/*"))) [
    | inl f ↦ let (b, k) = ends_with_sound _ _ f in absurd (none' b (inr k))
    | inr f ↦ rw (e, f)
  ]
]

pub IsGlob-cases :
    (pattern : Text)
    → ((base : Text) × IsGlob base pattern) ⊎ ((base : Text) → ¬ IsGlob base pattern)
IsGlob-cases pattern = elim (Bool-cases (ends_with pattern (text "/**"))) [
  | inl e ↦ let (b, k) = ends_with_sound _ _ e in inl (b, inl k)
  | inr e ↦ elim (Bool-cases (ends_with pattern (text "/*"))) [
    | inl f ↦ let (b, k) = ends_with_sound _ _ f in inl (b, inr k)
    | inr f ↦ inr (λ b g. neither b g e f)
  ]
]
  where
    neither :
        (b : Text)
        → IsGlob b pattern
        → ends_with pattern (text "/**") ≡ false
        → ends_with pattern (text "/*") ≡ false
        → ⊥
    neither b (inl k) e f = cc (ends_with-append b (text "/**"))
    neither b (inr k) e f = cc (ends_with-append b (text "/*"))

-- What the router matches for a pattern: by the base where it ends in a wild card.
unfoldable pub pattern_matches : Text → Text → Bool
pattern_matches pattern path = by_glob pattern (λ base. is_below base path) (text_eq path pattern)

-- The tests decide the meaning.
pub pattern_matches_iff :
    (pattern path : Text) → (pattern_matches pattern path ≡ true) ↔ PathMatches pattern path
unfolding pattern_matches
pattern_matches_iff pattern path = (sound, complete)
  where
    on_base : Text → Bool
    on_base base = is_below base path

    sound : by_glob pattern on_base (text_eq path pattern) ≡ true → PathMatches pattern path
    sound h = elim (IsGlob-cases pattern) [
      | inl (b, g) ↦
          inl (b, g, (is_below_iff b path).0 (sym (by_glob-glob b pattern on_base _ g) ∙ h))
      | inr plain ↦
          inr
            (plain, (text_eq_iff path pattern).0 (sym (by_glob-plain pattern on_base _ plain) ∙ h))
    ]

    complete : PathMatches pattern path → by_glob pattern on_base (text_eq path pattern) ≡ true
    complete (inl (b, g, below)) =
        by_glob-glob b pattern on_base _ g ∙ (is_below_iff b path).1 below
    complete (inr (plain, same)) =
        by_glob-plain pattern on_base _ plain ∙ (text_eq_iff path pattern).1 same

glob-matches :
    (base pattern path : Text)
    → IsGlob base pattern
    → pattern_matches pattern path ≡ is_below base path
unfolding pattern_matches
glob-matches base pattern path g = by_glob-glob base pattern (λ b. is_below b path) _ g

-- A pattern with a wild card matches what is below its base.
pub PathMatches-iff_Below :
    (base pattern path : Text) → IsGlob base pattern → PathMatches pattern path ↔ Below base path
PathMatches-iff_Below base pattern path g = (
  (λ m.
      (is_below_iff base path).0
        (sym (glob-matches base pattern path g) ∙ (pattern_matches_iff pattern path).1 m)),
  λ b.
      (pattern_matches_iff pattern path).0
        (glob-matches base pattern path g ∙ (is_below_iff base path).1 b),
)
