-- ===== src/Common/Strings/Splitting.antt =====
-- Splitting a text at a separator inverts joining its parts.
use mathlib.Core.Path.{◌≡◌, sym, ap, ◌∙◌}
use mathlib.Core.Logic.{◌≢◌}
use mathlib.Core.List.{List, [], ◌∷◌, ◌++◌, append-nil, append_assoc}
use Prim.Native.Nat.{ℕ}
use native.Mathlib.Omega.{arith}
use mini_api_gateway.Common.Lists.{All}
use mini_api_gateway.Common.Strings.{Text, split, split_from, join}

-- No separator stands in the text.
abbrev pub Without : ℕ → Text → Type 0
Without sep [] = Unit {0}
Without sep (c ∷ s) = (c ≢ sep) × Without sep s

split_from-part :
    (sep : ℕ) (cur part rest : Text)
    → Without sep part
    → split_from sep cur (part ++ sep ∷ rest) ≡ (cur ++ part) ∷ split_from sep [] rest
unfolding split_from
split_from-part sep cur [] rest h = ground (arith, append-nil cur)
split_from-part sep cur (c ∷ part) rest h =
    ground
      (arith, split_from-part sep (cur ++ c ∷ []) part rest h.1, append_assoc cur (c ∷ []) part)

split_from-last :
    (sep : ℕ) (cur part : Text) → Without sep part → split_from sep cur part ≡ (cur ++ part) ∷ []
unfolding split_from
split_from-last sep cur [] h = ap (λ x. x ∷ []) (sym (append-nil cur))
split_from-last sep cur (c ∷ part) h =
    ground (arith, split_from-last sep (cur ++ c ∷ []) part h.1, append_assoc cur (c ∷ []) part)

-- Splitting inverts joining with the separator.
pub split-join :
    (sep : ℕ) (part : Text) (parts : List Text)
    → Without sep part
    → All (Without sep) parts
    → split sep (join (sep ∷ []) (part ∷ parts)) ≡ part ∷ parts
unfolding split join
split-join sep part [] h hs = split_from-last sep [] part h
split-join sep part (q ∷ parts) h hs =
    split_from-part sep [] part (join (sep ∷ []) (q ∷ parts)) h
    ∙ ap (◌∷◌ part) (split-join sep q parts hs.0 hs.1)
