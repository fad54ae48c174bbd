-- ===== src/Common/Control.antt =====
-- The control flow of a handler: a result, an early return, or a panic; alone, and with a state.
use mathlib.Core.Path.{◌≡◌, refl, ap}
use mathlib.Core.Option.{Option, none, some}

-- `Result<A, E>`.
pub data Result {ℓ κ} (E : Type ℓ) (A : Type κ) : Type (ℓ ⊔ κ) where
  ok : A → Result E A
  err : E → Result E A

module _ {ℓ κ} {E : Type ℓ} {A : Type κ} where
  -- `Option::ok_or`.
  abbrev pub ok_or : Option A → E → Result E A
  ok_or none e = err e
  ok_or (some a) e = ok a

  -- `Result::ok`.
  abbrev pub to_option : Result E A → Option A
  to_option (ok a) = some a
  to_option (err e) = none

-- `Result::map_err`.
abbrev pub map_err {ℓ κ μ} :
    {E : Type ℓ} {F : Type κ} {A : Type μ} → (E → F) → Result E A → Result F A
map_err f (ok a) = ok a
map_err f (err e) = err (f e)

-- `result?` in a function that returns a `Result`.
infixl 5 ◌>>=?◌
abbrev pub ◌>>=?◌ {ℓ κ μ} :
    {E : Type ℓ} {A : Type κ} {B : Type μ} → Result E A → (A → Result E B) → Result E B
ok a >>=? f = f a
err e >>=? f = err e

-- What a statement sequence does: go on with `A`, return early with `R`, or panic.
pub data Flow (R : Type 0) (A : Type 0) : Type 0 where
  next : A → Flow R A
  stop : R → Flow R A
  panic : Flow R A

-- Code that changes a state `W`.
abbrev pub Run : Type 0 → Type 0 → Type 0 → Type 0
Run W R A = W → Flow R A × W

abbrev resume : {W R A B : Type 0} → (A → Run W R B) → Flow R A × W → Flow R B × W
resume k (next a, w) = k a w
resume k (stop r, w) = (stop r, w)
resume k (panic, w) = (panic, w)

infixl 5 ◌>>=◌ ◌>>◌
abbrev pub ◌>>=◌ : {W R A B : Type 0} → Run W R A → (A → Run W R B) → Run W R B
◌>>=◌ m k w = resume k (m w)

abbrev pub ◌>>◌ : {W R B : Type 0} → Run W R (Unit {0}) → Run W R B → Run W R B
m >> k = m >>= λ _. k

abbrev pub pure : {W R A : Type 0} → A → Run W R A
pure a w = (next a, w)

-- `return r`.
abbrev pub leave : {W R A : Type 0} → R → Run W R A
leave r w = (stop r, w)

-- `.unwrap()`: panics on the absent value.
abbrev pub unwrap : {W R A : Type 0} → Option A → Run W R A
unwrap none w = (panic, w)
unwrap (some a) w = (next a, w)

-- A change of the state.
abbrev pub modify : {W R : Type 0} → (W → W) → Run W R (Unit {0})
modify f w = (next tt, f w)

-- `result?` in such code that returns a `Result`: its error is what the code returns.
abbrev pub try : {W E A : Type 0} → Result E A → Run W E A
try (ok a) w = (next a, w)
try (err e) w = (stop e, w)

-- Inversion of a `?` chain that succeeds.
pub >>=?-eq-ok {ℓ κ μ} :
    {E : Type ℓ} {A : Type κ} {B : Type μ} (m : Result E A) (f : A → Result E B) {b : B}
    → (m >>=? f) ≡ ok b
    → (a : A) × (m ≡ ok a) × (f a ≡ ok b)
>>=?-eq-ok (ok a) f h = (a, refl, h)
>>=?-eq-ok (err e) f h = cc

pub ok-injective {ℓ κ} :
    {E : Type ℓ} {A : Type κ} {a b : A} → ◌≡◌ {A = Result E A} (ok a) (ok b) → a ≡ b
ok-injective h = cc

-- What succeeds after its error was mapped has succeeded before.
pub map_err-eq-ok {ℓ κ μ} :
    {E : Type ℓ} {F : Type κ} {A : Type μ} (f : E → F) (r : Result E A) {a : A}
    → map_err f r ≡ ok a
    → r ≡ ok a
map_err-eq-ok f (ok b) h = ap ok (ok-injective h)
map_err-eq-ok f (err e) h = cc

-- Inversion of a statement sequence that goes on to its end.
pub >>=-eq-next :
    {W R A B : Type 0} (m : Run W R A) (k : A → Run W R B) (w : W) {b : B} {w' : W}
    → (m >>= k) w ≡ (next b, w')
    → (a : A) × (v : W) × (m w ≡ (next a, v)) × (k a v ≡ (next b, w'))
>>=-eq-next {W} {R} {A} {B} m k w {b} {w'} h = go (m w) refl h
  where
    go :
        (x : Flow R A × W)
        → m w ≡ x
        → resume k x ≡ (next b, w')
        → (a : A) × (v : W) × (m w ≡ (next a, v)) × (k a v ≡ (next b, w'))
    go (next a, v) e h = (a, v, e, h)
    go (stop r, v) e h = cc
    go (panic, v) e h = cc

-- `?` goes on with the value of a success and changes nothing.
pub try-eq-next :
    {W E A : Type 0} (r : Result E A) (w : W) {a : A} {w' : W}
    → ◌≡◌ {A = Flow E A × W} (try r w) (next a, w')
    → (r ≡ ok a) × (w' ≡ w)
try-eq-next (ok b) w h = (cc, cc)
try-eq-next (err e) w h = cc

-- `.unwrap()` goes on with the value that there is and changes nothing.
pub unwrap-eq-next :
    {W R A : Type 0} (o : Option A) (w : W) {a : A} {w' : W}
    → ◌≡◌ {A = Flow R A × W} (unwrap o w) (next a, w')
    → (o ≡ some a) × (w' ≡ w)
unwrap-eq-next none w h = cc
unwrap-eq-next (some b) w h = (cc, cc)

-- The same as a rule: what follows from the two parts.
pub >>=-elim-next :
    {W R A B P : Type 0} (m : Run W R A) (k : A → Run W R B) (w : W) {b : B} {w' : W}
    → (m >>= k) w ≡ (next b, w')
    → ((a : A) (v : W) → m w ≡ (next a, v) → k a v ≡ (next b, w') → P)
    → P
>>=-elim-next m k w h f = let (a, v, e, g) = >>=-eq-next m k w h in f a v e g
