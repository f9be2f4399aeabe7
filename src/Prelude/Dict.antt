-- ===== src/Prelude/Dict.antt =====
-- `std::unordered_map` and `std::map` as association lists, generic in the key.
-- The list's order stands for the container's order of iteration.
use Prim.Native.Nat.{ℕ, ◌+◌}
use mathlib.Core.Path.{◌≡◌, refl}
use mathlib.Core.Bool.{Bool, true, false}
use mathlib.Core.List.{List, [], ◌∷◌}
use mathlib.Core.Option.{Option, none, some}
use native.Mathlib.Omega.{arith}
use distributed_math_arh.Prelude.Tests.{Eq, ◌==◌, if◌then◌else◌}

abbrev pub Dict {ℓ κ} : Type ℓ → Type κ → Type (ℓ ⊔ κ)
Dict K V = List (K × V)

abbrev pub is_some {ℓ} : {A : Type ℓ} → Option A → Bool
is_some none = false
is_some (some a) = true

module _ {ℓ κ} {K : Type ℓ} {V : Type κ} ⦃e : Eq K⦄ where
  -- m.find(k)
  unfoldable pub lookup : K → Dict K V → Option V
  lookup key [] = none
  lookup key ((j, v) ∷ later) = if j == key then some v else lookup key later

  -- m.contains(k), m.count(k)
  abbrev pub contains : K → Dict K V → Bool
  contains k m = is_some (lookup k m)

  -- m[k] = v
  unfoldable pub insert : K → V → Dict K V → Dict K V
  insert key new [] = (key, new) ∷ []
  insert key new ((j, old) ∷ later) =
      if j == key then (j, new) ∷ later else (j, old) ∷ insert key new later

  -- m.erase(k)
  unfoldable pub erase : K → Dict K V → Dict K V
  erase k [] = []
  erase k ((j, w) ∷ m) = let rest = erase k m in if j == k then rest else (j, w) ∷ rest

  pub lookup-insert :
      (k j : K) (v : V) (m : Dict K V)
      → lookup j (insert k v m) ≡ (if k == j then some v else lookup j m)
  unfolding lookup insert
  lookup-insert k other new [] = refl
  lookup-insert k other new ((i, old) ∷ later) =
      ground (
        arith,
        lookup-insert k other new later,
        e.beq_iff i k,
        e.beq_iff i other,
        e.beq_iff k other,
      )

  pub lookup-insert_self : (k : K) (v : V) (m : Dict K V) → lookup k (insert k v m) ≡ some v
  lookup-insert_self k v m = ground (arith, e.beq_iff k k, lookup-insert k k v m)

  pub lookup-erase :
      (k j : K) (m : Dict K V) → lookup j (erase k m) ≡ (if k == j then none else lookup j m)
  unfolding lookup erase
  lookup-erase k j [] = ground arith
  lookup-erase k j ((i, w) ∷ m) =
      ground (arith, e.beq_iff k j, e.beq_iff i k, e.beq_iff i j, lookup-erase k j m)

  -- Each key stands once, as in the containers.
  abbrev pub Distinct : Dict K V → Type κ
  Distinct [] = Unit
  Distinct ((j, v) ∷ m) = (lookup j m ≡ none) × Distinct m

  pub insert-Distinct : (k : K) (v : V) (m : Dict K V) → Distinct m → Distinct (insert k v m)
  unfolding insert lookup
  insert-Distinct k v [] d = (refl, tt)
  insert-Distinct k v ((j, w) ∷ m) d =
      ground (arith, e.beq_iff k j, e.beq_iff j k, lookup-insert k j v m, insert-Distinct k v m d.1)

  pub erase-Distinct : (k : K) (m : Dict K V) → Distinct m → Distinct (erase k m)
  unfolding erase
  erase-Distinct k [] d = tt
  erase-Distinct k ((j, w) ∷ m) d = ground (arith, lookup-erase k j m, erase-Distinct k m d.1)

  -- The sum of a measure over the values.
  abbrev pub total : (V → ℕ) → Dict K V → ℕ
  total f [] = 0
  total f ((j, v) ∷ m) = f v + total f m

  pub total-insert_new :
      (f : V → ℕ) (k : K) (v : V) (m : Dict K V)
      → lookup k m ≡ none
      → total f (insert k v m) ≡ total f m + f v
  unfolding insert lookup
  total-insert_new f k v [] h = omega arith
  total-insert_new f k v ((j, w) ∷ m) h = ground (arith, total-insert_new f k v m)

  pub total-erase_absent :
      (f : V → ℕ) (k : K) (m : Dict K V) → lookup k m ≡ none → total f (erase k m) ≡ total f m
  unfolding erase lookup
  total-erase_absent f k [] h = refl
  total-erase_absent f k ((j, w) ∷ m) h = ground (arith, total-erase_absent f k m)

  pub total-erase :
      (f : V → ℕ) (k : K) (v : V) (m : Dict K V)
      → Distinct m
      → lookup k m ≡ some v
      → total f (erase k m) + f v ≡ total f m
  unfolding erase lookup
  total-erase f k v [] d h = ground arith
  total-erase f k v ((j, w) ∷ m) d h =
      ground (arith, e.beq_iff j k, total-erase_absent f k m, total-erase f k v m d.1)

pub ruleset dict_laws = (lookup-insert, lookup-erase)
