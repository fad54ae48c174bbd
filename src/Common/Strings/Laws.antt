-- ===== src/Common/Strings/Laws.antt =====
-- What the tests and searches on texts decide, as equations.
use Prim.Native.Nat.{◌-◌}
use mathlib.Core.Path.{◌≡◌, refl, ap, subst}
use mathlib.Core.Logic.{◌≢◌, ◌↔◌, inl, inr}
use mathlib.Core.Bool.{Bool, true, false, ◌||◌}
use mathlib.Core.Option.{some}
use mathlib.Core.List.{[], ◌∷◌, ◌++◌, append-nil}
use native.Mathlib.Omega.{arith}
use mini_api_gateway.Common.Tests.{Bool-cases}
use mini_api_gateway.Common.Lists.{length, take-append, length-append}
use mini_api_gateway.Common.Strings.{
  Text, text_eq, strip_prefix, starts_with, ends_with, drop_last, to_lowercase,
  eq_ignore_ascii_case,
}

pub text_eq_sound : (s t : Text) → text_eq s t ≡ true → s ≡ t
unfolding text_eq
text_eq_sound [] [] h = refl
text_eq_sound [] (y ∷ ys) h = cc
text_eq_sound (x ∷ xs) [] h = cc
text_eq_sound (x ∷ xs) (y ∷ ys) h = ground (arith, text_eq_sound xs ys)

pub text_eq_refl : (s : Text) → text_eq s s ≡ true
unfolding text_eq
text_eq_refl [] = refl
text_eq_refl (x ∷ xs) = ground (arith, text_eq_refl xs)

pub text_eq_iff : (s t : Text) → (text_eq s t ≡ true) ↔ (s ≡ t)
text_eq_iff s t = (text_eq_sound s t, λ e. rw e (text_eq_refl t))

pub text_eq_sym : (s t : Text) → text_eq s t ≡ text_eq t s
unfolding text_eq
text_eq_sym [] [] = refl
text_eq_sym [] (y ∷ ys) = refl
text_eq_sym (x ∷ xs) [] = refl
text_eq_sym (x ∷ xs) (y ∷ ys) = ground (arith, text_eq_sym xs ys)

pub text_eq_of_ne : (s t : Text) → s ≢ t → text_eq s t ≡ false
text_eq_of_ne s t h = elim (Bool-cases (text_eq s t)) [
  | inl e ↦ absurd (h (text_eq_sound s t e))
  | inr e ↦ e
]

-- `strip_prefix` inverts an append, and succeeds on nothing else.
pub strip_prefix_sound : (s p : Text) {r : Text} → strip_prefix s p ≡ some r → s ≡ p ++ r
unfolding strip_prefix
strip_prefix_sound s [] h = cc
strip_prefix_sound [] (y ∷ ys) h = cc
strip_prefix_sound (x ∷ xs) (y ∷ ys) {r} h = ground (arith, strip_prefix_sound xs ys {r = r})

pub strip_prefix-append : (p r : Text) → strip_prefix (p ++ r) p ≡ some r
unfolding strip_prefix
strip_prefix-append [] r = refl
strip_prefix-append (x ∷ xs) r = ground (arith, strip_prefix-append xs r)

pub strip_prefix_self : (p : Text) → strip_prefix p p ≡ some []
strip_prefix_self p =
    subst (λ t. strip_prefix t p ≡ some []) (append-nil p) (strip_prefix-append p [])

pub starts_with_sound : (s p : Text) → starts_with s p ≡ true → (r : Text) × (s ≡ p ++ r)
unfolding starts_with
starts_with_sound s [] h = (s, refl)
starts_with_sound [] (y ∷ ys) h = cc
starts_with_sound (x ∷ xs) (y ∷ ys) h =
    let (r, e) = starts_with_sound xs ys (ground arith) in (r, ground arith)

pub starts_with-append : (p r : Text) → starts_with (p ++ r) p ≡ true
unfolding starts_with
starts_with-append [] r = refl
starts_with-append (x ∷ xs) r = ground (arith, starts_with-append xs r)

pub ends_with_sound : (s p : Text) → ends_with s p ≡ true → (r : Text) × (s ≡ r ++ p)
unfolding ends_with
ends_with_sound [] p h = ([], text_eq_sound [] p h)
ends_with_sound (x ∷ xs) p h = elim (Bool-cases (text_eq (x ∷ xs) p)) [
  | inl e ↦ ([], text_eq_sound (x ∷ xs) p e)
  | inr e ↦ let (r, k) = ends_with_sound xs p (rw (e, ends_with) at h) in (x ∷ r, ap (◌∷◌ x) k)
]

or_true : (b : Bool) → (b || true) ≡ true
or_true true = refl
or_true false = refl

pub ends_with-append : (r p : Text) → ends_with (r ++ p) p ≡ true
unfolding ends_with
ends_with-append [] [] = refl
ends_with-append [] (y ∷ p) = rw (text_eq_refl (y ∷ p))
ends_with-append (x ∷ r) p = rw (ends_with-append r p, or_true (text_eq (x ∷ (r ++ p)) p))

pub drop_last-append : (r p : Text) → drop_last (length p) (r ++ p) ≡ r
unfolding drop_last
drop_last-append r p =
    let e : length (r ++ p) - length p ≡ length r = omega (arith, length-append r p) in
    rw e (take-append r p)

pub eq_ignore_ascii_case_refl : (s : Text) → eq_ignore_ascii_case s s ≡ true
unfolding eq_ignore_ascii_case
eq_ignore_ascii_case_refl s = text_eq_refl (to_lowercase s)

pub eq_ignore_ascii_case_iff :
    (s t : Text) → (eq_ignore_ascii_case s t ≡ true) ↔ (to_lowercase s ≡ to_lowercase t)
unfolding eq_ignore_ascii_case
eq_ignore_ascii_case_iff s t = text_eq_iff (to_lowercase s) (to_lowercase t)

pub eq_ignore_ascii_case_sym : (s t : Text) → eq_ignore_ascii_case s t ≡ eq_ignore_ascii_case t s
unfolding eq_ignore_ascii_case
eq_ignore_ascii_case_sym s t = text_eq_sym (to_lowercase s) (to_lowercase t)

pub text-append_cancel : (p : Text) {r s : Text} → p ++ r ≡ p ++ s → r ≡ s
text-append_cancel [] e = e
text-append_cancel (x ∷ p) e = text-append_cancel p (cc)
