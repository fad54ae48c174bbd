-- ===== src/Gateway/Safety.antt =====
-- Which code of the gateway cannot panic, while a property of the world is kept.
pub mod Routes
pub mod Forwarding
pub mod Stages
pub mod Requests
pub mod Histories
pub mod Built
use mini_api_gateway.Common.{
  ◌≡◌, refl, Bool, true, false, if◌then◌else◌, Result, ok, err, Flow, next, stop, panic, Run, ◌>>=◌,
  try,
}
use mini_api_gateway.Platform.{Platform, World}

module _ (p : Platform) (P : World p → Type 0) where
  -- An end that is no panic, in a world with the property.
  abbrev pub IsSafe : {R A : Type 0} → Flow R A × World p → Type 0
  IsSafe (next a, w) = P w
  IsSafe (stop r, w) = P w
  IsSafe (panic, w) = ⊥

  -- Code that ends so in every world with the property.
  abbrev pub Safe : {R A : Type 0} → Run (World p) R A → Type 0
  Safe m = (w : World p) → P w → IsSafe (m w)

  pub >>=-Safe :
      {R A B : Type 0} (m : Run (World p) R A) (k : A → Run (World p) R B)
      → Safe m
      → ((a : A) → Safe (k a))
      → Safe (m >>= k)
  >>=-Safe {R} {A} m k f g w h = go (m w) (f w h)
    where
      go : (x : Flow R A × World p) → IsSafe x → IsSafe (((λ (u : World p). x) >>= k) w)
      go (next a, v) s = g a v s
      go (stop r, v) s = s
      go (panic, v) s = absurd s

  pub if-Safe :
      {R A : Type 0} (b : Bool) (m n : Run (World p) R A)
      → (b ≡ true → Safe m)
      → Safe n
      → Safe (if b then m else n)
  if-Safe true m n f g = f refl
  if-Safe false m n f g = g

  pub try-Safe : {E A : Type 0} (r : Result E A) → Safe (try r)
  try-Safe (ok a) w h = h
  try-Safe (err e) w h = h
