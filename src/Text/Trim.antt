-- ===== src/Text/Trim.antt =====
-- What strings.TrimSpace leaves.
use mathlib.Core.List.{reverse-cons, reverse-append}
use frost_agent.Prelude.{
  ℕ, zero, suc, ◌≤◌, ◌≡◌, refl, sym, ◌∙◌, ap, false, ◌&&◌, [], ◌∷◌, ◌++◌, reverse, arith,
  if◌then◌else◌, length, drop, Bool-cases, inl, inr,
}
use frost_agent.Text.{Text, is_empty, is_space, trim_left, trim_space}

-- The right half of TrimSpace, without a reversal.
unfoldable pub trim_right : Text → Text
trim_right [] = []
trim_right (c ∷ cs) =
    let rest = trim_right cs in if is_empty rest && is_space c then [] else c ∷ rest

trim_left-snoc :
    (xs : Text) (c : ℕ)
    → trim_left (xs ++ c ∷ [])
      ≡ (if is_empty (trim_left xs) then trim_left (c ∷ []) else trim_left xs ++ c ∷ [])
unfolding trim_left
trim_left-snoc [] c = refl
trim_left-snoc (x ∷ xs) c = ground (arith, trim_left-snoc xs c)

snoc_not_empty : (xs : Text) (c : ℕ) → is_empty (xs ++ c ∷ []) ≡ false
snoc_not_empty [] c = refl
snoc_not_empty (x ∷ xs) c = refl

reverse-snoc :
    (xs : Text) (c : ℕ) (r : Text)
    → reverse xs ≡ r
    → reverse (if is_empty xs then trim_left (c ∷ []) else xs ++ c ∷ [])
      ≡ (if is_empty r && is_space c then [] else c ∷ r)
unfolding trim_left
reverse-snoc [] c r e =
    rw (← e)
      (elim (Bool-cases (is_space c)) [ inl blank ↦ rw blank refl | inr solid ↦ rw solid refl ])
reverse-snoc (x ∷ xs) c r e =
    let some_left : is_empty r ≡ false =
      ap is_empty (sym e ∙ reverse-cons x xs) ∙ snoc_not_empty (reverse xs) x in
    rw some_left (reverse-append (x ∷ xs) (c ∷ []) ∙ ap (◌∷◌ c) e)

reverse-trim_left : (s : Text) → reverse (trim_left (reverse s)) ≡ trim_right s
unfolding trim_right trim_left
reverse-trim_left [] = refl
reverse-trim_left (c ∷ cs) =
    ap (λ t. reverse (trim_left t)) (reverse-cons c cs)
    ∙ ap reverse (trim_left-snoc (reverse cs) c)
    ∙ reverse-snoc (trim_left (reverse cs)) c (trim_right cs) (reverse-trim_left cs)

trim_space_lem : (s : Text) → trim_space s ≡ trim_right (trim_left s)
unfolding trim_space
trim_space_lem s = reverse-trim_left (trim_left s)

-- A text that TrimSpace leaves as it is.
pub record Trimmed (s : Text) : Type 0 where
  pub left : trim_left s ≡ s
  pub right : trim_right s ≡ s

pub trim_space-id : (s : Text) → Trimmed s → trim_space s ≡ s
trim_space-id s v = trim_space_lem s ∙ ap trim_right v.left ∙ v.right

trim_left_idem : (s : Text) → trim_left (trim_left s) ≡ trim_left s
unfolding trim_left
trim_left_idem [] = refl
trim_left_idem (c ∷ cs) = ground (arith, trim_left_idem cs)

trim_right_idem : (s : Text) → trim_right (trim_right s) ≡ trim_right s
unfolding trim_right
trim_right_idem [] = refl
trim_right_idem (c ∷ cs) = ground (arith, trim_right_idem cs)

length-trim_left-le : (s : Text) → length (trim_left s) ≤ length s
unfolding trim_left
length-trim_left-le [] = omega arith
length-trim_left-le (c ∷ cs) = ground (arith, length-trim_left-le cs)

trim_left-trim_right : (s : Text) → trim_left s ≡ s → trim_left (trim_right s) ≡ trim_right s
unfolding trim_left trim_right
trim_left-trim_right [] h = refl
trim_left-trim_right (c ∷ cs) h = elim (Bool-cases (is_space c)) [
  | inl blank ↦ absurd (ground (arith, ap length h, length-trim_left-le cs))
  | inr solid ↦ ground (arith, solid)
]

pub trim_space-Trimmed : (s : Text) → Trimmed (trim_space s)
trim_space-Trimmed s = rw (trim_space_lem s) (record {
  left = trim_left-trim_right (trim_left s) (trim_left_idem s);
  right = trim_right_idem (trim_left s);
})

-- A suffix of a text that ends in no space ends in none either, and a text in front of one that is
-- not empty changes nothing.
pub trim_right-drop : (n : ℕ) (s : Text) → trim_right s ≡ s → trim_right (drop n s) ≡ drop n s
unfolding trim_right
trim_right-drop zero s h = h
trim_right-drop (suc n) [] h = refl
trim_right-drop (suc n) (c ∷ cs) h = trim_right-drop n cs (ground arith)

pub trim_right-append :
    (s t : Text) → is_empty t ≡ false → trim_right t ≡ t → trim_right (s ++ t) ≡ s ++ t
unfolding trim_right
trim_right-append [] t some_left h = h
trim_right-append (c ∷ []) t some_left h = ground arith
trim_right-append (c ∷ d ∷ cs) t some_left h =
    ground (arith, trim_right-append (d ∷ cs) t some_left h)
