-- ===== src/Base/Maps.antt =====
-- Go's map[string]V. What the program does with a map does not depend on the order of its keys.
use mathlib.Core.Path.{◌≡◌, refl, ap}
use mathlib.Core.Bool.{Bool, true, false, ◌||◌}
use mathlib.Core.Logic.{inl, inr}
use mathlib.Core.Option.{Option, none, some}
use mathlib.Core.List.{List, [], ◌∷◌}
use native.Mathlib.Omega.{arith}
use qi.Base.Tests.{if◌then◌else◌, is_some, Bool-cases}
use qi.Base.Lists.{length}
use Prim.Native.Nat.{suc}
use qi.Base.Strings.{Text, ◌==◌, eq_iff}

abbrev pub Dict {ℓ} : Type ℓ → Type ℓ
Dict V = List (Text × V)

-- _, ok := set[k]
unfoldable pub contains : Text → List Text → Bool
contains j [] = false
contains j (k ∷ ks) = k == j || contains j ks

module _ {ℓ} {V : Type ℓ} where
  -- v, ok := m[k]
  unfoldable pub lookup : Text → Dict V → Option V
  lookup k [] = none
  lookup k ((j, v) ∷ m) = if j == k then some v else lookup k m

  -- delete(m, k)
  unfoldable pub erase : Text → Dict V → Dict V
  erase k [] = []
  erase k ((j, v) ∷ m) = let rest = erase k m in if j == k then rest else (j, v) ∷ rest

  -- m[k] = v
  unfoldable pub insert : Text → V → Dict V → Dict V
  unfolding erase
  insert k v m = (k, v) ∷ erase k m

  pub lookup-erase :
      (k j : Text) (m : Dict V) → lookup j (erase k m) ≡ (if k == j then none else lookup j m)
  unfolding lookup erase
  lookup-erase k j [] = ground arith
  lookup-erase k j ((i, v) ∷ m) =
      ground (arith, lookup-erase k j m, eq_iff i k, eq_iff i j, eq_iff k j)

  pub lookup-insert :
      (k j : Text) (v : V) (m : Dict V)
      → lookup j (insert k v m) ≡ (if k == j then some v else lookup j m)
  unfolding lookup insert
  lookup-insert k j v m = ground (arith, lookup-erase k j m)

  -- Every key stands once.
  abbrev pub IsMap : Dict V → Type 0
  IsMap [] = Unit
  IsMap ((k, v) ∷ m) = is_some (lookup k m) ≡ false × IsMap m

  lookup-erase_none :
      (k j : Text) (m : Dict V)
      → is_some (lookup j m) ≡ false
      → is_some (lookup j (erase k m)) ≡ false
  lookup-erase_none k j m h = ground (arith, lookup-erase k j m)

  pub erase-IsMap : (k : Text) (m : Dict V) → IsMap m → IsMap (erase k m)
  unfolding erase
  erase-IsMap k [] h = tt
  erase-IsMap k ((j, v) ∷ m) h = elim (Bool-cases (j == k)) [
    | inl e ↦ rw e (erase-IsMap k m h.1)
    | inr e ↦ rw e (lookup-erase_none k j m h.0, erase-IsMap k m h.1)
  ]

  pub insert-IsMap : (k : Text) (v : V) (m : Dict V) → IsMap m → IsMap (insert k v m)
  unfolding insert
  insert-IsMap k v m h = (ground (arith, lookup-erase k k m, eq_iff k k), erase-IsMap k m h)

  -- for _, k := range ks { delete(m, k) }
  unfoldable pub erase_all : List Text → Dict V → Dict V
  erase_all [] m = m
  erase_all (k ∷ ks) m = erase_all ks (erase k m)

  pub erase_all-IsMap : (ks : List Text) (m : Dict V) → IsMap m → IsMap (erase_all ks m)
  unfolding erase_all
  erase_all-IsMap [] m h = h
  erase_all-IsMap (k ∷ ks) m h = erase_all-IsMap ks (erase k m) (erase-IsMap k m h)

  pub lookup-erase_all :
      (ks : List Text) (j : Text) (m : Dict V)
      → lookup j (erase_all ks m) ≡ (if contains j ks then none else lookup j m)
  unfolding erase_all contains
  lookup-erase_all [] j m = refl
  lookup-erase_all (k ∷ ks) j m =
      ground (arith, lookup-erase_all ks j (erase k m), lookup-erase k j m)

  pub lookup-eq : (k j : Text) (m : Dict V) → (k == j) ≡ true → lookup k m ≡ lookup j m
  lookup-eq k j m h = ap (λ i. lookup i m) ((eq_iff k j).0 h)

  pub length-erase-none :
      (k : Text) (m : Dict V) → lookup k m ≡ none → length (erase k m) ≡ length m
  unfolding lookup erase
  length-erase-none k [] h = refl
  length-erase-none k ((j, v) ∷ m) h = ground (arith, length-erase-none k m)

  pub length-erase-some :
      (k : Text) (v : V) (m : Dict V)
      → IsMap m
      → lookup k m ≡ some v
      → suc (length (erase k m)) ≡ length m
  unfolding lookup erase
  length-erase-some k v [] u h = cc
  length-erase-some k v ((j, w) ∷ m) u h =
      ground (arith, length-erase-some k v m u.1, length-erase-none k m, lookup-eq j k m)
