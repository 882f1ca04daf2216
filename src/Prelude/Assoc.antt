-- ===== src/Prelude/Assoc.antt =====
-- Go maps as association lists. `insert` overwrites in place, `erase` drops every entry of the
-- key, and a range loop over a map visits some `order` that `Enumerates` it.
use mathlib.Core.Path.{◌≡◌, refl}
use mathlib.Core.Option.{Option, none, some}
use mathlib.Core.List.{List, [], ◌∷◌}
use native.Mathlib.Omega.{arith}
use mathlib.Core.Logic.{◌⊎◌, inl, inr}
use mathlib.Core.Bool.{false}
use cloudlab_k8s.Prelude.Tests.{Bool-cases, if◌then◌else◌}
use cloudlab_k8s.Prelude.Keys.{Eq, ◌==◌}

abbrev pub Map {ℓ} : Type ℓ → Type ℓ → Type ℓ
Map K V = List (K × V)

pub some-eq {ℓ} : {A : Type ℓ} {a b : A} → some a ≡ some b → a ≡ b
some-eq e = ground arith

module _ {ℓ} {K V : Type ℓ} ⦃e : Eq K⦄ where
  unfoldable pub lookup : K → Map K V → Option V
  lookup key [] = none
  lookup key ((first, x) ∷ rest) = if first == key then some x else lookup key rest

  unfoldable pub erase : K → Map K V → Map K V
  erase k [] = []
  erase k ((j, v) ∷ m) = let rest = erase k m in if j == k then rest else (j, v) ∷ rest

  unfoldable pub insert : K → V → Map K V → Map K V
  insert key x [] = (key, x) ∷ []
  insert key x ((first, y) ∷ rest) =
      if first == key then (key, x) ∷ rest else (first, y) ∷ insert key x rest

  pub lookup-insert :
      (key other : K) (x : V) (m : Map K V)
      → lookup other (insert key x m) ≡ (if key == other then some x else lookup other m)
  unfolding insert lookup
  lookup-insert key other x [] = refl
  lookup-insert key other x ((first, y) ∷ rest) = ground (
    arith,
    lookup-insert key other x rest,
    e.beq_iff first other,
    e.beq_iff first key,
    e.beq_iff key other,
  )

  pub lookup-none_cons :
      (other key : K) (x : V) (m : Map K V)
      → lookup key ((other, x) ∷ m) ≡ none
      → ((other == key) ≡ false) × (lookup key m ≡ none)
  unfolding lookup
  lookup-none_cons other key x m h = elim (Bool-cases (other == key)) [
    | inl same ↦ absurd (ground (arith, h, same))
    | inr differs ↦ (differs, rw differs at h)
  ]

  pub lookup-some_cons :
      (other key : K) (x y : V) (m : Map K V)
      → lookup key ((other, x) ∷ m) ≡ some y
      → ((other ≡ key) × (x ≡ y)) ⊎ (((other == key) ≡ false) × (lookup key m ≡ some y))
  unfolding lookup
  lookup-some_cons other key x y m h = elim (Bool-cases (other == key)) [
    | inl same ↦ inl ((e.beq_iff other key).0 same, some-eq (rw same at h))
    | inr differs ↦ inr (differs, rw differs at h)
  ]

  pub lookup-erase :
      (k j : K) (m : Map K V) → lookup j (erase k m) ≡ (if k == j then none else lookup j m)
  unfolding lookup erase
  lookup-erase k j [] = ground arith
  lookup-erase k j ((i, v) ∷ m) =
      ground (arith, lookup-erase k j m, e.beq_iff i k, e.beq_iff i j, e.beq_iff k j)

  -- No key stands twice.
  abbrev pub Distinct : Map K V → Type ℓ
  Distinct [] = Unit
  Distinct ((k, v) ∷ m) = (lookup k m ≡ none) × Distinct m

  -- `order` is one way a range loop may visit the map `m`: each key once, with its value.
  pub record Enumerates (order m : Map K V) : Type ℓ where
    pub distinct : Distinct order
    pub same : (k : K) → lookup k order ≡ lookup k m

  pub Distinct-insert : (k : K) (v : V) (m : Map K V) → Distinct m → Distinct (insert k v m)
  unfolding insert
  Distinct-insert k v [] d = (unfold lookup in refl, tt)
  Distinct-insert k v ((j, w) ∷ m) d =
      ground (arith, e.beq_iff j k, e.beq_iff k j, lookup-insert k j v m, Distinct-insert k v m d.1)

  pub Distinct-erase : (k : K) (m : Map K V) → Distinct m → Distinct (erase k m)
  unfolding erase
  Distinct-erase k [] d = tt
  Distinct-erase k ((j, w) ∷ m) d = ground (arith, lookup-erase k j m, Distinct-erase k m d.1)
