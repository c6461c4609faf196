-- ===== src/Base/Assoc.antt =====
-- Go maps with string keys, as association lists, and the sorted list of their keys.
use mathlib.Core.Path.{◌≡◌, refl}
use mathlib.Core.Bool.{Bool, true, false, ◌||◌}
use mathlib.Core.Option.{Option, none, some}
use mathlib.Core.List.{List, [], ◌∷◌}
use native.Mathlib.Omega.{arith}
use request_sudo.Base.Tests.{if◌then◌else◌}
use request_sudo.Base.Bytes.{Text, text_eq, text_eq_iff, text_le}

abbrev pub Map {ℓ} : Type ℓ → Type ℓ
Map V = List (Text × V)

module _ {ℓ} {V : Type ℓ} where
  -- `v, ok := m[k]`
  unfoldable pub lookup : Text → Map V → Option V
  lookup k [] = none
  lookup k ((j, v) ∷ m) = if text_eq j k then some v else lookup k m

  -- `m[k] = v`
  unfoldable pub insert : Text → V → Map V → Map V
  insert k v [] = (k, v) ∷ []
  insert k v ((j, w) ∷ m) = if text_eq j k then (k, v) ∷ m else (j, w) ∷ insert k v m

  -- `delete(m, k)`
  unfoldable pub delete : Text → Map V → Map V
  delete k [] = []
  delete k ((j, w) ∷ m) = let rest = delete k m in if text_eq j k then rest else (j, w) ∷ rest

  pub lookup-insert :
      (k j : Text) (v : V) (m : Map V)
      → lookup j (insert k v m) ≡ (if text_eq k j then some v else lookup j m)
  unfolding lookup insert
  lookup-insert k j v [] = refl
  lookup-insert k j v ((i, w) ∷ m) =
      ground (arith, text_eq_iff k j, text_eq_iff i k, text_eq_iff i j, lookup-insert k j v m)

  pub lookup-delete :
      (k j : Text) (m : Map V) → lookup j (delete k m) ≡ (if text_eq k j then none else lookup j m)
  unfolding lookup delete
  lookup-delete k j [] = ground arith
  lookup-delete k j ((i, w) ∷ m) =
      ground (arith, text_eq_iff k j, text_eq_iff i k, text_eq_iff i j, lookup-delete k j m)

  unfoldable pub keys : Map V → List Text
  keys [] = []
  keys ((k, v) ∷ m) = k ∷ keys m

-- `k` stands in the list.
unfoldable pub contains : List Text → Text → Bool
contains [] k = false
contains (j ∷ js) k = text_eq j k || contains js k

insert_sorted : Text → List Text → List Text
insert_sorted k [] = k ∷ []
insert_sorted k (j ∷ js) = if text_le k j then k ∷ j ∷ js else j ∷ insert_sorted k js

-- `sort.Strings`
unfoldable pub sort_texts : List Text → List Text
unfolding insert_sorted
sort_texts [] = []
sort_texts (k ∷ ks) = insert_sorted k (sort_texts ks)

contains-insert_sorted :
    (k j : Text) (ks : List Text) → contains (insert_sorted k ks) j ≡ text_eq k j || contains ks j
unfolding insert_sorted contains
contains-insert_sorted k j [] = refl
contains-insert_sorted k j (i ∷ ks) = ground (arith, contains-insert_sorted k j ks)

-- Sorting keeps exactly the members.
pub contains-sort_texts : (ks : List Text) (j : Text) → contains (sort_texts ks) j ≡ contains ks j
unfolding sort_texts contains
contains-sort_texts [] j = refl
contains-sort_texts (k ∷ ks) j =
    ground (arith, contains-insert_sorted k j (sort_texts ks), contains-sort_texts ks j)

module _ {ℓ} {V : Type ℓ} where
  -- A key that is found stands among the keys.
  pub contains-keys :
      (m : Map V) (k : Text) (v : V) → lookup k m ≡ some v → contains (keys m) k ≡ true
  unfolding lookup contains keys
  contains-keys [] k v h = cc
  contains-keys ((j, w) ∷ m) k v h = ground (arith, contains-keys m k v)

pub ruleset map_laws = (lookup-insert, lookup-delete)
