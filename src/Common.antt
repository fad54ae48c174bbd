-- ===== src/Common.antt =====
-- The names that all modules share: the libraries' and those of the children.
mod Tests
mod Lists
mod Strings
mod Control
pub use Tests.*
pub use Lists.*
unfoldable pub use Strings.{
  Text, text, text_eq, strip_prefix, starts_with, ends_with, drop_last, to_lowercase,
  eq_ignore_ascii_case, split_first, split, trim, join, decimal,
}
pub use Strings.Laws.*
pub use Strings.Digits.*
pub use Strings.Splitting.*
pub use Control.*
pub use Prim.Native.Nat.{ℕ, zero, suc, ◌+◌, ◌-◌, ◌*◌, ◌/◌, ◌%◌, ◌^◌, ◌≤◌, ◌<◌}
pub use Prim.Native.String.{String}
pub use mathlib.Core.Path.{◌≡◌, refl, sym, ap, subst, ◌∙◌}
pub use mathlib.Core.Logic.{◌≢◌, ◌↔◌, ◌⊎◌, inl, inr}
pub use mathlib.Core.Bool.{Bool, true, false, not, ◌&&◌, ◌||◌}
pub use mathlib.Core.Option.{Option, none, some, get_or}
pub use mathlib.Core.List.{List, [], ◌∷◌, ◌++◌, map, append-nil, append_assoc, Memᴰ}
pub use native.Mathlib.Omega.{arith}
