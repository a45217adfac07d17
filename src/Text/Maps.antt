-- ===== src/Text/Maps.antt =====
-- Go's maps with string keys, as lists of their entries.
use frost_agent.Prelude.{
  ◌≡◌, refl, false, not, Option, none, some, List, [], ◌∷◌, ◌++◌, arith, if◌then◌else◌, keep,
}
use frost_agent.Text.{Text, text_eq, text_eq_iff, text_eq_refl}

module _ {ℓ} {A : Type ℓ} where
  unfoldable pub find : Text → List (Text × A) → Option A
  find k [] = none
  find k ((j, a) ∷ rest) = let there = find k rest in if text_eq j k then some a else there

  unfoldable pub remove : Text → List (Text × A) → List (Text × A)
  remove k m = keep (λ e. not (text_eq e.0 k)) m

  unfoldable pub put : Text → A → List (Text × A) → List (Text × A)
  unfolding remove
  put k a m = (k, a) ∷ remove k m

  unfoldable pub remove_all : List Text → List (Text × A) → List (Text × A)
  remove_all [] m = m
  remove_all (k ∷ ks) m = remove_all ks (remove k m)

  pub find-put : (k : Text) (a : A) (m : List (Text × A)) → find k (put k a m) ≡ some a
  unfolding find put
  find-put k a m = rw (text_eq_refl k) refl

  pub find-remove_same : (k : Text) (m : List (Text × A)) → find k (remove k m) ≡ none
  unfolding find remove
  find-remove_same k [] = refl
  find-remove_same k ((j, a) ∷ rest) = ground (arith, find-remove_same k rest)

  pub find-remove :
      (j k : Text) (m : List (Text × A)) → text_eq j k ≡ false → find k (remove j m) ≡ find k m
  unfolding find remove
  find-remove j k [] h = refl
  find-remove j k ((i, a) ∷ rest) h =
      ground (arith, find-remove j k rest h, text_eq_iff i j, text_eq_iff i k, text_eq_iff j k)

  pub find-put_other :
      (j k : Text) (a : A) (m : List (Text × A))
      → text_eq j k ≡ false
      → find k (put j a m) ≡ find k m
  unfolding find put
  find-put_other j k a m h = rw h (find-remove j k m h)

  pub find-remove-none :
      (j k : Text) (m : List (Text × A)) → find k m ≡ none → find k (remove j m) ≡ none
  unfolding find remove
  find-remove-none j k [] h = refl
  find-remove-none j k ((i, a) ∷ rest) h = ground (arith, find-remove-none j k rest)

  pub find-remove_all-none :
      (k : Text) (ks : List Text) (m : List (Text × A))
      → find k m ≡ none
      → find k (remove_all ks m) ≡ none
  unfolding remove_all
  find-remove_all-none k [] m h = h
  find-remove_all-none k (j ∷ ks) m h =
      find-remove_all-none k ks (remove j m) (find-remove-none j k m h)

  -- The last key of a row that is removed is gone.
  pub find-remove_all_last :
      (k : Text) (ks : List Text) (m : List (Text × A))
      → find k (remove_all (ks ++ k ∷ []) m) ≡ none
  unfolding remove_all
  find-remove_all_last k [] m = find-remove_same k m
  find-remove_all_last k (j ∷ ks) m = find-remove_all_last k ks (remove j m)
