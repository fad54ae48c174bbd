-- ===== src/Discovery/Shared.antt =====
-- What the two service discoveries share: the HTTP client that they ask with, the table of the
-- endpoints that they found, and the names that their background tasks watch.
use mini_api_gateway.Common.{
  subst, inl, inr, ℕ, ◌≡◌, refl, Bool, ◌&&◌, Option, none, some, List, [], ◌∷◌, All, if◌then◌else◌,
  leb, ltb, arith, Bool-cases, Text, text_eq, text_eq_refl, Result,
}

-- An answer to a query: its status, and what reading its body yields.
pub record Reply : Type 0 where
  pub status : ℕ
  pub body : Result Text Text

-- The `reqwest` client as the discoveries use it. `build` is the result of building it, `post`
-- sends a body of JSON, and `status_text` is the `Display` of a status code.
pub record QueryClient : Type 1 where
  pub Net : Type 0
  pub build : Result Text (Unit {0})
  pub get : (url : Text) → Net → Result Text Reply × Net
  pub post : (url json : Text) → Net → Result Text Reply × Net
  pub status_text : ℕ → Text

-- `status().is_success()`
abbrev pub is_success : ℕ → Bool
is_success s = leb 200 s && ltb s 300

-- The map of the endpoints by the name of their service: the first entry for a name counts.
abbrev pub Table : Type 0
Table = List (Text × List Text)

unfoldable pub lookup : Text → Table → Option (List Text)
lookup name [] = none
lookup name ((k, es) ∷ t) = let rest = lookup name t in if text_eq k name then some es else rest

unfoldable pub put : Text → List Text → Table → Table
put name es t = (name, es) ∷ t

pub lookup-put : (name : Text) (es : List Text) (t : Table) → lookup name (put name es t) ≡ some es
unfolding lookup put
lookup-put name es t = rw (text_eq_refl name) refl

-- The first of the endpoints that are cached, if there is any.
unfoldable pub first_cached : Option (List Text) → Option Text
first_cached none = none
first_cached (some []) = none
first_cached (some (e ∷ es)) = some e

-- The state behind a discovery's clones.
pub record Shared (Net : Type 0) : Type 0 where
  pub endpoints : Table
  pub net : Net
  pub watched : List Text

abbrev pub start : {Net : Type 0} → Net → Shared Net
start net = record { endpoints = []; net = net; watched = [] }

-- One more name that a background task watches.
abbrev pub watching : {Net : Type 0} → Text → Shared Net → Shared Net
watching name s = record s { watched = name ∷ s.watched }

module _ (IsAddress : Text → Type 0) where
  -- Every endpoint of the table is an address.
  abbrev pub AreAddresses : Table → Type 0
  AreAddresses [] = Unit {0}
  AreAddresses ((k, es) ∷ t) = All IsAddress es × AreAddresses t

  lookup-AreAddresses :
      (name : Text) (t : Table) (es : List Text)
      → AreAddresses t
      → lookup name t ≡ some es
      → All IsAddress es
  unfolding lookup
  lookup-AreAddresses name [] es h c = cc
  lookup-AreAddresses name ((k, ds) ∷ t) es h c = elim (Bool-cases (text_eq k name)) [
    | inl y ↦
        let same : ds ≡ es = ground arith in subst (λ (x : List Text). All IsAddress x) same h.0
    | inr n ↦ lookup-AreAddresses name t es h.1 (ground arith)
  ]

  first-IsAddress :
      (o : Option (List Text)) (e : Text)
      → ((es : List Text) → o ≡ some es → All IsAddress es)
      → first_cached o ≡ some e
      → IsAddress e
  unfolding first_cached
  first-IsAddress none e h c = cc
  first-IsAddress (some []) e h c = cc
  first-IsAddress (some (d ∷ es)) e h c =
      let same : d ≡ e = ground arith in subst IsAddress same (h (d ∷ es) refl).0

  -- What is cached first is an address.
  pub first_cached-IsAddress :
      (name : Text) (t : Table) (e : Text)
      → AreAddresses t
      → first_cached (lookup name t) ≡ some e
      → IsAddress e
  first_cached-IsAddress name t e h c =
      first-IsAddress (lookup name t) e (λ es. lookup-AreAddresses name t es h) c
