-- ===== src/Base/Dicts.antt =====
-- Rust's `HashMap<String, V>` as an association list. The order of the list stands for the
-- order of iteration, which the program does not fix.
use Prim.Native.Nat.{ℕ, ◌+◌, ◌≤◌}
use Prim.Native.String.{String}
use mathlib.Core.Path.{◌≡◌, refl, subst₂}
use mathlib.Core.Logic.{inl, inr}
use mathlib.Core.List.{List, [], ◌∷◌}
use mathlib.Core.Option.{Option, none, some}
use native.Mathlib.Omega.{arith}
use text.Mathlib.Text.{◌==◌}
use text.Mathlib.TextEquality.{eq_iff}
use text.Mathlib.TextPositions.{eq_refl}
use vectorhawkd.Base.Tests.{if◌then◌else◌, Bool-cases}
use vectorhawkd.Base.Lists.{All, All-imp}

abbrev pub Dict {ℓ} : Type ℓ → Type ℓ
Dict V = List (String × V)

module _ {ℓ} {V : Type ℓ} where
  -- `get`
  unfoldable pub lookup : String → Dict V → Option V
  lookup key [] = none
  lookup key ((other, v) ∷ d) = if other == key then some v else lookup key d

  -- `insert`: an old value of the key is replaced.
  unfoldable pub insert : String → V → Dict V → Dict V
  insert key v [] = (key, v) ∷ []
  insert key v ((other, old) ∷ d) =
      if other == key then (key, v) ∷ d else (other, old) ∷ insert key v d

  -- `remove`
  unfoldable pub remove : String → Dict V → Dict V
  remove key [] = []
  remove key ((other, old) ∷ d) =
      let rest = remove key d in if other == key then rest else (other, old) ∷ rest

  -- `get_mut` and an update in place
  unfoldable pub adjust : String → (V → V) → Dict V → Dict V
  adjust key f [] = []
  adjust key f ((other, old) ∷ d) =
      if other == key then (other, f old) ∷ d else (other, old) ∷ adjust key f d

  -- `values()`
  abbrev pub values : Dict V → List V
  values [] = []
  values ((key, v) ∷ d) = v ∷ values d

  pub lookup-insert :
      (key other : String) (v : V) (d : Dict V)
      → lookup other (insert key v d) ≡ (if key == other then some v else lookup other d)
  unfolding lookup insert
  lookup-insert key other v [] = refl
  lookup-insert key other v ((here, old) ∷ d) =
      ground
        (arith, eq_iff key other, eq_iff here key, eq_iff here other, lookup-insert key other v d)

  pub lookup-remove :
      (key other : String) (d : Dict V)
      → lookup other (remove key d) ≡ (if key == other then none else lookup other d)
  unfolding lookup remove
  lookup-remove key other [] = ground arith
  lookup-remove key other ((here, old) ∷ d) =
      ground
        (arith, eq_iff key other, eq_iff here key, eq_iff here other, lookup-remove key other d)

  pub lookup-adjust :
      (key other : String) (f : V → V) (d : Dict V)
      → lookup other (adjust key f d) ≡ (
          if key == other
          then elim (lookup other d) [ none ↦ none | some v ↦ some (f v) ]
          else lookup other d)
  unfolding lookup adjust
  lookup-adjust key other f [] = ground arith
  lookup-adjust key other f ((here, old) ∷ d) =
      ground
        (arith, eq_iff key other, eq_iff here key, eq_iff here other, lookup-adjust key other f d)

  pub lookup-insert_self :
      (key : String) (v : V) (d : Dict V) → lookup key (insert key v d) ≡ some v
  lookup-insert_self key v d = simp (lookup-insert, eq_refl)

  -- No key stands twice.
  abbrev pub IsUnique : Dict V → Type ℓ
  IsUnique [] = Unit
  IsUnique ((key, v) ∷ d) = (lookup key d ≡ none) × IsUnique d

  pub insert-IsUnique : (key : String) (v : V) (d : Dict V) → IsUnique d → IsUnique (insert key v d)
  unfolding insert lookup
  insert-IsUnique key v [] u = (refl, tt)
  insert-IsUnique key v ((other, old) ∷ d) u = ground (
    arith,
    eq_iff other key,
    eq_iff key other,
    insert-IsUnique key v d u.1,
    lookup-insert key other v d,
  )

  pub remove-IsUnique : (key : String) (d : Dict V) → IsUnique d → IsUnique (remove key d)
  unfolding remove lookup
  remove-IsUnique key [] u = tt
  remove-IsUnique key ((other, old) ∷ d) u = ground (
    arith,
    eq_iff other key,
    eq_iff key other,
    remove-IsUnique key d u.1,
    lookup-remove key other d,
  )

  pub adjust-IsUnique :
      (key : String) (f : V → V) (d : Dict V) → IsUnique d → IsUnique (adjust key f d)
  unfolding adjust lookup
  adjust-IsUnique key f [] u = tt
  adjust-IsUnique key f ((other, old) ∷ d) u = ground (
    arith,
    eq_iff other key,
    eq_iff key other,
    adjust-IsUnique key f d u.1,
    lookup-adjust key other f d,
  )

  -- The sum of a weight of the values.
  abbrev pub weight : (V → ℕ) → Dict V → ℕ
  weight w [] = 0
  weight w ((k, v) ∷ m) = w v + weight w m

  pub weight-insert :
      (w : V → ℕ) (k : String) (v : V) (m : Dict V) → weight w (insert k v m) ≤ weight w m + w v
  unfolding insert
  weight-insert w k v [] = omega arith
  weight-insert w k v ((j, x) ∷ m) = ground (arith, weight-insert w k v m)

  pub weight-remove : (w : V → ℕ) (k : String) (m : Dict V) → weight w (remove k m) ≤ weight w m
  unfolding remove
  weight-remove w k [] = omega arith
  weight-remove w k ((j, x) ∷ m) = ground (arith, weight-remove w k m)

  pub weight-adjust :
      (w : V → ℕ) (k : String) (f : V → V) (m : Dict V)
      → ((v : V) → w (f v) ≡ w v)
      → weight w (adjust k f m) ≡ weight w m
  unfolding adjust
  weight-adjust w k f [] h = refl
  weight-adjust w k f ((j, x) ∷ m) h = ground (arith, h x, weight-adjust w k f m h)

  -- A property of each entry.
  pub All-insert {κ} :
      (P : String × V → Type κ) (k : String) (v : V) (m : Dict V)
      → P (k, v)
      → All P m
      → All P (insert k v m)
  unfolding insert
  All-insert P k v [] p h = (p, tt)
  All-insert P k v ((j, w) ∷ m) p h = ground (arith, All-insert P k v m p h.1)

  pub All-remove {κ} :
      (P : String × V → Type κ) (k : String) (m : Dict V) → All P m → All P (remove k m)
  unfolding remove
  All-remove P k [] h = tt
  All-remove P k ((j, w) ∷ m) h = ground (arith, All-remove P k m h.1)

  pub All-adjust {κ} :
      (P : String × V → Type κ) (k : String) (f : V → V) (m : Dict V)
      → ((j : String) (v : V) → P (j, v) → P (j, f v))
      → All P m
      → All P (adjust k f m)
  unfolding adjust
  All-adjust P k f [] g h = tt
  All-adjust P k f ((j, w) ∷ m) g h = ground (arith, g j w h.0, All-adjust P k f m g h.1)

  pub All-lookup {κ} :
      (P : String × V → Type κ) (k : String) (m : Dict V) {v : V}
      → All P m
      → lookup k m ≡ some v
      → P (k, v)
  unfolding lookup
  All-lookup P k [] h e = cc
  All-lookup P k ((j, w) ∷ m) {v} h e = elim (Bool-cases (j == k)) [
    | inl same ↦
        let p : j ≡ k = (eq_iff j k).0 same in
        let q : w ≡ v = ground arith in subst₂ (λ a b. P (a, b)) p q h.0
    | inr other ↦ All-lookup P k m h.1 (ground arith)
  ]

  -- With no key twice, each entry is the one that its key finds.
  pub All-lookup_self : (m : Dict V) → IsUnique m → All (λ p. lookup p.0 m ≡ some p.1) m
  unfolding lookup
  All-lookup_self [] u = tt
  All-lookup_self ((k, v) ∷ m) (absent, u) = (
    simp eq_refl,
    All-imp (λ p e. ground (arith, absent, e, eq_iff k p.0)) m (All-lookup_self m u),
  )

pub ruleset dict_laws = (lookup-insert, lookup-remove, lookup-adjust)
