-- ===== src/Auth/Exclusion.antt =====
-- The paths that the authentication layer lets through, beside the paths that the router matches for
-- the same pattern.
use mini_api_gateway.Common.{
  ℕ, ◌≡◌, refl, sym, ap, ◌∙◌, ◌≢◌, ◌↔◌, ◌⊎◌, inl, inr, Bool, true, List, [], ◌∷◌, ◌++◌, Memᴰ, any,
  any_sound, any_complete, arith, Text, text, text_eq, text_eq_iff, starts_with, starts_with_sound,
  starts_with-append, text-append_cancel, append-nil,
}
use mini_api_gateway.Router.Globs.{
  IsGlob, PathMatches, Below, by_glob, IsGlob-cases, by_glob-glob, by_glob-plain,
  PathMatches-iff_Below,
}
use mini_api_gateway.Auth.{AuthLayer, excludes, is_excluded_path}

-- What an excluded path lets through: any path that begins with the base of a wild card, or
-- the very path.
abbrev pub LetsThrough : Text → Text → Type 0
LetsThrough p path =
    ((base : Text) × IsGlob base p × ((rest : Text) × (path ≡ base ++ rest)))
    ⊎ (((base : Text) → ¬ IsGlob base p) × (path ≡ p))

excludes_iff : (p path : Text) → (excludes p path ≡ true) ↔ LetsThrough p path
unfolding excludes
excludes_iff p path = (sound, complete)
  where
    on_base : Text → Bool
    on_base base = starts_with path base

    sound : by_glob p on_base (text_eq path p) ≡ true → LetsThrough p path
    sound h = elim (IsGlob-cases p) [
      | inl (b, g) ↦ inl (b, g, starts_with_sound path b (sym (by_glob-glob b p on_base _ g) ∙ h))
      | inr plain ↦ inr (plain, (text_eq_iff path p).0 (sym (by_glob-plain p on_base _ plain) ∙ h))
    ]

    complete : LetsThrough p path → by_glob p on_base (text_eq path p) ≡ true
    complete (inl (b, g, (rest, e))) =
        by_glob-glob b p on_base _ g ∙ (ap (λ s. starts_with s b) e ∙ starts_with-append b rest)
    complete (inr (plain, e)) = by_glob-plain p on_base _ plain ∙ (text_eq_iff path p).1 e

module _ {K : Type 0} where
  -- A path is let through without a token exactly when one of the excluded paths is a wild card
  -- whose base the path begins with, or is the path itself and no wild card.
  pub is_excluded_path_iff :
      (auth : AuthLayer K) (path : Text)
      → (is_excluded_path auth path ≡ true)
        ↔ ((p : Text) × Memᴰ p auth.config.excluded_paths × LetsThrough p path)
  unfolding is_excluded_path
  is_excluded_path_iff auth path = (sound, complete)
    where
      excluded : List Text
      excluded = auth.config.excluded_paths

      sound :
          any (λ p. excludes p path) excluded ≡ true
          → (p : Text) × Memᴰ p excluded × LetsThrough p path
      sound h =
          let (p, m, e) = any_sound (λ p. excludes p path) excluded h in
          (p, m, (excludes_iff p path).0 e)

      complete :
          (p : Text) × Memᴰ p excluded × LetsThrough p path
          → any (λ p. excludes p path) excluded ≡ true
      complete (p, m, l) =
          any_complete (λ p. excludes p path) excluded p m ((excludes_iff p path).1 l)

  -- The exclusion of `base/**` goes further than the route `base/**`: every path that continues the
  -- base's last name without a slash is let through without a token, though the route's
  -- pattern does not match it.
  is_excluded_path_beyond :
      (auth : AuthLayer K) (base rest : Text) (c : ℕ)
      → Memᴰ (base ++ text "/**") auth.config.excluded_paths
      → c ≢ b'/'
      → (is_excluded_path auth (base ++ c ∷ rest) ≡ true)
        × (¬ PathMatches (base ++ text "/**") (base ++ c ∷ rest))
  is_excluded_path_beyond auth base rest c m n = (
    (is_excluded_path_iff auth (base ++ c ∷ rest)).1
        (base ++ text "/**", m, inl (base, inl refl, (c ∷ rest, refl))),
    λ matches. not-Below ((PathMatches-iff_Below base (base ++ text "/**") _ (inl refl)).0 matches),
  )
    where
      not-Below : ¬ Below base (base ++ c ∷ rest)
      not-Below (inl e) =
          let empty : c ∷ rest ≡ [] = text-append_cancel base (e ∙ sym (append-nil base)) in cc
      not-Below (inr (r, e, free)) =
          let same : c ∷ rest ≡ b'/' ∷ r = text-append_cancel base e in n (ground arith)
