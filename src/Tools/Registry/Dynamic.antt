-- ===== src/Tools/Registry/Dynamic.antt =====
-- The names and tools of one source, and what replacing them does to each name.
use qi.Base.{
  Text, Bool, true, false, ◌==◌, eq_iff, Option, none, some, List, [], ◌∷◌, ◌≡◌, refl, ap, arith,
  Dict, lookup, insert, erase_all, contains, if◌then◌else◌, is_some, IsMap, lookup-insert,
  lookup-erase_all, insert-IsMap, inl, inr, Bool-cases,
}
use qi.Tools.{Tool, Source, validate, source_eq}
use qi.Tools.Registry.Batch.{check_batch, check_conflicts, names_of, put_all}

-- The tool is of the source.
abbrev pub from_source : Source → Option Tool → Bool
from_source s none = false
from_source s (some t) = source_eq t.source s

-- What is left of an entry when the tools of a source go.
abbrev pub kept : Source → Option Tool → Option Tool
kept s none = none
kept s (some t) = if source_eq t.source s then none else some t

-- The last tool of a batch with the name.
unfoldable pub last_named : Text → List Tool → Option Tool
last_named n [] = none
last_named n (t ∷ ts) = elim (last_named n ts) [
  | some u ↦ some u
  | none ↦ if t.name == n then some t else none
]

abbrev pub or_else {ℓ} : {A : Type ℓ} → Option A → Option A → Option A
or_else none b = b
or_else (some a) b = some a

contains-names_of_none :
    (s : Source) (n : Text) (m : Dict Tool)
    → is_some (lookup n m) ≡ false
    → contains n (names_of s m) ≡ false
unfolding names_of lookup contains
contains-names_of_none s n [] h = refl
contains-names_of_none s n ((k, t) ∷ m) h = ground (arith, contains-names_of_none s n m, eq_iff k n)

pub contains-names_of :
    (s : Source) (n : Text) (m : Dict Tool)
    → IsMap m
    → contains n (names_of s m) ≡ from_source s (lookup n m)
unfolding names_of lookup contains
contains-names_of s n [] h = refl
contains-names_of s n ((k, t) ∷ m) h =
    ground (arith, contains-names_of s n m, contains-names_of_none s k m, eq_iff k n)

pub lookup-erase_names :
    (s : Source) (n : Text) (m : Dict Tool)
    → IsMap m
    → lookup n (erase_all (names_of s m) m) ≡ kept s (lookup n m)
lookup-erase_names s n m h =
    ground (arith, lookup-erase_all (names_of s m) n m, contains-names_of s n m)

pub lookup-put_all :
    (ts : List Tool) (n : Text) (m : Dict Tool)
    → lookup n (put_all ts m) ≡ or_else (last_named n ts) (lookup n m)
unfolding put_all last_named
lookup-put_all [] n m = refl
lookup-put_all (t ∷ ts) n m =
    ground (arith, lookup-put_all ts n (insert t.name t m), lookup-insert t.name n t m)

pub put_all-IsMap : (ts : List Tool) (m : Dict Tool) → IsMap m → IsMap (put_all ts m)
unfolding put_all
put_all-IsMap [] m h = h
put_all-IsMap (t ∷ ts) m h = put_all-IsMap ts (insert t.name t m) (insert-IsMap t.name t m h)

-- What a batch that passed its checks has under a name.
pub check_batch_sound :
    (s : Source) (ts : List Tool) (n : Text) (u : Tool)
    → check_batch s ts ≡ none
    → last_named n ts ≡ some u
    → (u.name ≡ n) × (validate u ≡ none) × (source_eq u.source s ≡ true)
unfolding check_batch last_named
check_batch_sound s [] n u h e = ground arith
check_batch_sound s (t ∷ ts) n u h e = ground (arith, check_batch_sound s ts n u, eq_iff t.name n)

pub check_conflicts_sound :
    (m : Dict Tool) (s : Source) (ts : List Tool) (n : Text) (u t : Tool)
    → check_conflicts m s ts ≡ none
    → last_named n ts ≡ some u
    → lookup n m ≡ some t
    → source_eq t.source s ≡ true
unfolding check_conflicts last_named
check_conflicts_sound m s [] n u t h e l = ground arith
check_conflicts_sound m s (v ∷ ts) n u t h e l = elim (Bool-cases (v.name == n)) [
  | inl same ↦ ground (
    arith,
    check_conflicts_sound m s ts n u t,
    eq_iff v.name n,
    ap (λ k. lookup k m) ((eq_iff v.name n).0 same),
  )
  | inr other ↦ ground (arith, check_conflicts_sound m s ts n u t)
]
