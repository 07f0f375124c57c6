-- ===== src/Base/Maps.antt =====
-- The JavaScript `Map`, and a table with a unique key, as an association list in insertion order:
-- `set` overwrites in place or appends, `delete` and `retain` keep the order of what is left.
use Prim.Native.Nat.{◌+◌, ◌≤◌}
use mathlib.Core.Path.{◌≡◌, refl, subst₂}
use mathlib.Core.Logic.{inl, inr}
use mathlib.Core.Bool.{Bool}
use mathlib.Core.Option.{Option, none, some}
use mathlib.Core.List.{List, [], ◌∷◌}
use native.Mathlib.Omega.{arith}
use nest_id_p.Base.Tests.{if◌then◌else◌, Bool-cases}
use nest_id_p.Base.Lists.{length}
use nest_id_p.Base.Eq.{Eq, ◌==◌}

abbrev pub Map {ℓ κ} : Type ℓ → Type κ → Type (ℓ ⊔ κ)
Map K V = List (K × V)

-- The value that survives a test.
abbrev pub filter_value {ℓ} : {V : Type ℓ} → (V → Bool) → Option V → Option V
filter_value p none = none
filter_value p (some v) = if p v then some v else none

module _ {ℓ κ} {K : Type ℓ} {V : Type κ} ⦃e : Eq K⦄ where
  unfoldable pub get : K → Map K V → Option V
  get k [] = none
  get k ((j, held) ∷ rest) = if j == k then some held else get k rest

  unfoldable pub set : K → V → Map K V → Map K V
  set k v [] = (k, v) ∷ []
  set k v ((j, old) ∷ rest) = if j == k then (k, v) ∷ rest else (j, old) ∷ set k v rest

  unfoldable pub delete : K → Map K V → Map K V
  delete k [] = []
  delete k ((j, w) ∷ m) = let rest = delete k m in if j == k then rest else (j, w) ∷ rest

  -- `for (const [key, value] of map) if (!keep(value)) map.delete(key)`.
  unfoldable pub retain : (K → V → Bool) → Map K V → Map K V
  retain p [] = []
  retain p ((j, w) ∷ m) = let rest = retain p m in if p j w then (j, w) ∷ rest else rest

  -- No key stands twice, as in a `Map` or under a unique index.
  abbrev pub Distinct : Map K V → Type κ
  Distinct [] = Unit
  Distinct ((j, w) ∷ m) = (get j m ≡ none) × Distinct m

  pub get-set :
      (k j : K) (v : V) (m : Map K V) → get j (set k v m) ≡ (if k == j then some v else get j m)
  unfolding get set
  get-set k j v [] = refl
  get-set k j v ((i, w) ∷ m) =
      ground (arith, e.beq_iff k j, e.beq_iff i k, e.beq_iff i j, get-set k j v m)

  pub get-delete : (k j : K) (m : Map K V) → get j (delete k m) ≡ (if k == j then none else get j m)
  unfolding get delete
  get-delete k j [] = ground arith
  get-delete k j ((i, w) ∷ m) =
      ground (arith, e.beq_iff k j, e.beq_iff i k, e.beq_iff i j, get-delete k j m)

  get-none-retain :
      (p : K → V → Bool) (k : K) (m : Map K V) → get k m ≡ none → get k (retain p m) ≡ none
  unfolding get retain
  get-none-retain p k [] h = refl
  get-none-retain p k ((i, w) ∷ m) h = ground (arith, get-none-retain p k m)

  pub get-retain :
      (p : K → V → Bool) (k : K) (m : Map K V)
      → Distinct m
      → get k (retain p m) ≡ filter_value (p k) (get k m)
  unfolding get retain
  get-retain p k [] d = refl
  get-retain p k ((i, w) ∷ m) d =
      ground (arith, e.beq_iff i k, get-retain p k m d.1, get-none-retain p k m)

  pub Distinct-set : (k : K) (v : V) (m : Map K V) → Distinct m → Distinct (set k v m)
  unfolding get set
  Distinct-set k v [] d = (refl, tt)
  Distinct-set k v ((i, w) ∷ m) d =
      ground (arith, e.beq_iff i k, e.beq_iff k i, get-set k i v m, Distinct-set k v m d.1)

  pub Distinct-delete : (k : K) (m : Map K V) → Distinct m → Distinct (delete k m)
  unfolding delete
  Distinct-delete k [] d = tt
  Distinct-delete k ((i, w) ∷ m) d =
      ground (arith, e.beq_iff k i, get-delete k i m, Distinct-delete k m d.1)

  pub Distinct-retain : (p : K → V → Bool) (m : Map K V) → Distinct m → Distinct (retain p m)
  unfolding retain
  Distinct-retain p [] d = tt
  Distinct-retain p ((i, w) ∷ m) d =
      ground (arith, get-none-retain p i m d.0, Distinct-retain p m d.1)

  pub length-set-le : (k : K) (v : V) (m : Map K V) → length (set k v m) ≤ length m + 1
  unfolding set
  length-set-le k v [] = omega arith
  length-set-le k v ((i, w) ∷ m) = ground (arith, length-set-le k v m)

  pub length-retain-le : (p : K → V → Bool) (m : Map K V) → length (retain p m) ≤ length m
  unfolding retain
  length-retain-le p [] = omega arith
  length-retain-le p ((i, w) ∷ m) = ground (arith, length-retain-le p m)

  pub length-delete-le : (k : K) (m : Map K V) → length (delete k m) ≤ length m
  unfolding delete
  length-delete-le k [] = omega arith
  length-delete-le k ((i, w) ∷ m) = ground (arith, length-delete-le k m)

-- A predicate on every entry.
module _ {ℓ κ μ} {K : Type ℓ} {V : Type κ} (P : K → V → Type μ) where
  abbrev pub Entries : Map K V → Type μ
  Entries [] = Unit
  Entries ((k, v) ∷ m) = P k v × Entries m

module _ {ℓ κ μ} {K : Type ℓ} {V : Type κ} ⦃e : Eq K⦄ (P : K → V → Type μ) where
  pub Entries-set : (k : K) (v : V) (m : Map K V) → Entries P m → P k v → Entries P (set k v m)
  unfolding set
  Entries-set k v [] h p = (p, tt)
  Entries-set k v ((i, w) ∷ m) h p = elim (Bool-cases (i == k)) [
    | inl e ↦ rw e (p, h.1)
    | inr e ↦ rw e (h.0, Entries-set k v m h.1 p)
  ]

  pub Entries-delete : (k : K) (m : Map K V) → Entries P m → Entries P (delete k m)
  unfolding delete
  Entries-delete k [] h = tt
  Entries-delete k ((i, w) ∷ m) h = elim (Bool-cases (i == k)) [
    | inl e ↦ rw e (Entries-delete k m h.1)
    | inr e ↦ rw e (h.0, Entries-delete k m h.1)
  ]

  pub Entries-retain : (p : K → V → Bool) (m : Map K V) → Entries P m → Entries P (retain p m)
  unfolding retain
  Entries-retain p [] h = tt
  Entries-retain p ((i, w) ∷ m) h = elim (Bool-cases (p i w)) [
    | inl e ↦ rw e (h.0, Entries-retain p m h.1)
    | inr e ↦ rw e (Entries-retain p m h.1)
  ]

  pub Entries-get : (k : K) (v : V) (m : Map K V) → Entries P m → get k m ≡ some v → P k v
  unfolding get
  Entries-get k v [] h found = cc
  Entries-get k v ((i, w) ∷ m) h found = elim (Bool-cases (i == k)) [
    | inl hit ↦ subst₂ P ((e.beq_iff i k).0 hit) (ground arith) h.0
    | inr miss ↦ Entries-get k v m h.1 (rw miss at found)
  ]
