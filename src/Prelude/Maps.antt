-- ===== src/Prelude/Maps.antt =====
-- Go maps with numbers as keys, as association lists: the first entry of a key counts.
use Prim.Native.Nat.{ℕ}
use mathlib.Core.Path.{◌≡◌, refl}
use mathlib.Core.Bool.{not, false}
use mathlib.Core.Logic.{inl, inr}
use mathlib.Core.Option.{Option, none, some}
use mathlib.Core.List.{List, [], ◌∷◌}
use native.Mathlib.Omega.{arith}
use frost_agent.Prelude.Tests.{◌==◌, ==_iff, Bool-cases, leb, if◌then◌else◌}
use frost_agent.Prelude.Lists.{keep}

module _ {ℓ} {V : Type ℓ} where
  abbrev pub lookup : ℕ → List (ℕ × V) → Option V
  lookup k [] = none
  lookup k ((j, v) ∷ m) = if j == k then some v else lookup k m

  -- delete(m, k)
  abbrev pub delete : ℕ → List (ℕ × V) → List (ℕ × V)
  delete k m = keep (λ e. not (e.0 == k)) m

  -- m[k] = v
  abbrev pub insert : ℕ → V → List (ℕ × V) → List (ℕ × V)
  insert k v m = (k, v) ∷ delete k m

  abbrev pub delete_all : List ℕ → List (ℕ × V) → List (ℕ × V)
  delete_all [] m = m
  delete_all (k ∷ ks) m = delete_all ks (delete k m)

  abbrev pub keys : List (ℕ × V) → List ℕ
  keys [] = []
  keys ((k, v) ∷ m) = k ∷ keys m

module _ {ℓ} {V : Type ℓ} where
  pub lookup-delete_self : (k : ℕ) (m : List (ℕ × V)) → lookup k (delete k m) ≡ none
  lookup-delete_self k [] = refl
  lookup-delete_self k ((j, v) ∷ m) = ground (arith, lookup-delete_self k m)

-- The entry of a key, changed in place.
module _ {ℓ} {V : Type ℓ} where
  abbrev pub adjust : ℕ → (V → V) → List (ℕ × V) → List (ℕ × V)
  adjust k f [] = []
  adjust k f ((j, v) ∷ m) =
      let rest = adjust k f m in if j == k then (j, f v) ∷ rest else (j, v) ∷ rest

  pub lookup-adjust :
      (k : ℕ) (f : V → V) (m : List (ℕ × V)) (v : V)
      → lookup k m ≡ some v
      → lookup k (adjust k f m) ≡ some (f v)
  lookup-adjust k f [] v h = ground arith
  lookup-adjust k f ((j, w) ∷ m) v h = elim (Bool-cases (j == k)) [
    | inl same ↦ ground (arith, h, same)
    | inr other ↦ ground (arith, other, lookup-adjust k f m v (ground (arith, h, other)))
  ]

  pub lookup-adjust_other :
      (k l : ℕ) (f : V → V) (m : List (ℕ × V))
      → (l == k) ≡ false
      → lookup l (adjust k f m) ≡ lookup l m
  lookup-adjust_other k l f [] h = refl
  lookup-adjust_other k l f ((j, v) ∷ m) h =
      ground (arith, ==_iff j k, ==_iff j l, ==_iff l k, lookup-adjust_other k l f m h)

-- slices.Sort
insert_sorted : ℕ → List ℕ → List ℕ
insert_sorted n [] = n ∷ []
insert_sorted n (k ∷ ks) = if leb n k then n ∷ k ∷ ks else k ∷ insert_sorted n ks

unfoldable pub sort : List ℕ → List ℕ
unfolding insert_sorted
sort [] = []
sort (n ∷ ns) = insert_sorted n (sort ns)
