-- ===== src/Router/Regex.antt =====
-- The `regex` crate, which the router uses and does not implement: how the two forms of pattern
-- that the router builds match, as the crate documents it.
use mini_api_gateway.Common.{
  ◌≡◌, Bool, true, false, not, ◌&&◌, Option, none, some, [], ◌∷◌, ◌++◌, all, ◌==◌, Text, text,
  text_eq, strip_prefix, Result, ok,
}

-- `.` matches every character but the line feed.
abbrev pub no_newline : Text → Bool
no_newline s = all (λ c. not (c == 10)) s

abbrev pub is_tail : Option Text → Bool
is_tail none = false
is_tail (some []) = true
is_tail (some (c ∷ s)) = c == b'/' && no_newline s

-- What `^base(/.*)?$` matches, for a literal base.
unfoldable pub is_below : Text → Text → Bool
is_below base path = is_tail (strip_prefix path base)

pub record RegexLib : Type 1 where
  pub Regex : Type 0
  pub compile : Text → Result Text Regex
  pub escape : Text → Text
  pub is_match : Regex → Text → Bool
  pub match_exact :
      (base : Text) (r : Regex)
      → compile (text "^" ++ (escape base ++ text "$")) ≡ ok r
      → (path : Text) → is_match r path ≡ text_eq path base
  pub match_below :
      (base : Text) (r : Regex)
      → compile (text "^" ++ (escape base ++ text "(/.*)?$")) ≡ ok r
      → (path : Text) → is_match r path ≡ is_below base path
