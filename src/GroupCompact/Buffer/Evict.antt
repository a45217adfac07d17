-- ===== src/GroupCompact/Buffer/Evict.antt =====
-- What the eviction of enforce_cap keeps: the loop's result as a description without a loop.
use frost_agent.Prelude.{
  true, false, All, All-drop, All-map, keep_everything, keep_nothing, ℕ, zero, suc, ◌+◌, ◌-◌, ◌≤◌,
  ◌<◌, ◌≡◌, refl, sym, ap, ◌∙◌, inl, inr, List, [], ◌∷◌, arith, ltb, length, drop, keep, Bool-cases,
  length-drop, drop-all, min, length-keep-le, ltb→lt, lt→ltb, le→ltb,
}
use frost_agent.GroupCompact.Buffer.{Slot, evict_committed, enforce_cap, is_staged, is_committed}

-- A slot is staged or committed.
length-split :
    (xs : List Slot) → length xs ≡ length (keep is_staged xs) + length (keep is_committed xs)
length-split [] = omega arith
length-split (x ∷ xs) = ground (arith, length-split xs)

evict_committed-done :
    (excess dropped : ℕ) (xs : List Slot)
    → excess ≤ dropped
    → evict_committed excess dropped xs ≡ xs
unfolding evict_committed
evict_committed-done excess dropped [] h = refl
evict_committed-done excess dropped (x ∷ xs) h =
    ground (arith, evict_committed-done excess dropped xs h)

evict_committed-length :
    (excess dropped : ℕ) (xs : List Slot)
    → length (evict_committed excess dropped xs)
      ≡ length xs - min (excess - dropped) (length (keep is_committed xs))
unfolding evict_committed
evict_committed-length excess dropped [] = omega arith
evict_committed-length excess dropped (x ∷ xs) = ground (
  arith,
  evict_committed-length excess dropped xs,
  evict_committed-length excess (dropped + 1) xs,
  length-keep-le is_committed xs,
)

-- The first pass leaves every staged slot.
evict_committed-staged :
    (excess dropped : ℕ) (xs : List Slot)
    → keep is_staged (evict_committed excess dropped xs) ≡ keep is_staged xs
unfolding evict_committed
evict_committed-staged excess dropped [] = refl
evict_committed-staged excess dropped (x ∷ xs) = ground (
  arith,
  evict_committed-staged excess dropped xs,
  evict_committed-staged excess (dropped + 1) xs,
)

-- Of the committed ones it drops the oldest `n`.
evict_committed-oldest :
    (n excess dropped : ℕ) (xs : List Slot)
    → n + dropped ≡ excess
    → keep is_committed (evict_committed excess dropped xs) ≡ drop n (keep is_committed xs)
unfolding evict_committed
evict_committed-oldest n excess dropped [] h = sym (drop-all n [] (omega arith))
evict_committed-oldest zero excess dropped (x ∷ xs) h =
    ground (arith, evict_committed-done excess dropped (x ∷ xs))
evict_committed-oldest (suc n) excess dropped (x ∷ xs) h = ground (
  arith,
  evict_committed-oldest (suc n) excess dropped xs,
  evict_committed-oldest n excess (dropped + 1) xs,
)

-- A list with no committed slot is staged throughout.
all_staged : (xs : List Slot) → length (keep is_committed xs) ≡ 0 → keep is_staged xs ≡ xs
all_staged [] h = refl
all_staged (x ∷ xs) h = ground (arith, all_staged xs)

kept_staged : (xs : List Slot) → All (λ x. is_staged x ≡ true) (keep is_staged xs)
kept_staged [] = tt
kept_staged (x ∷ xs) = ground (arith, kept_staged xs)

kept_not_committed : (xs : List Slot) → All (λ x. is_committed x ≡ false) (keep is_staged xs)
kept_not_committed xs = All-map (λ x e. rw e refl) (keep is_staged xs) (kept_staged xs)

keep-staged_drop :
    (n : ℕ) (xs : List Slot)
    → keep is_staged (drop n (keep is_staged xs)) ≡ drop n (keep is_staged xs)
keep-staged_drop n xs =
    keep_everything is_staged (drop n (keep is_staged xs))
      (All-drop (λ x. is_staged x ≡ true) n (keep is_staged xs) (kept_staged xs))

keep-committed_drop : (n : ℕ) (xs : List Slot) → keep is_committed (drop n (keep is_staged xs)) ≡ []
keep-committed_drop n xs =
    keep_nothing is_committed (drop n (keep is_staged xs))
      (All-drop (λ x. is_committed x ≡ false) n (keep is_staged xs) (kept_not_committed xs))

module _ (max : ℕ) (buffer : List Slot) where
  -- The buffer is cut down to the limit exactly, and never below it.
  pub length-enforce_cap : length (enforce_cap max buffer) ≡ min max (length buffer)
  unfolding enforce_cap
  length-enforce_cap =
      let kept : List Slot = evict_committed (length buffer - max) 0 buffer in
      ground (
        arith,
        evict_committed-length (length buffer - max) 0 buffer,
        length-drop (length kept - max) kept,
        length-keep-le is_committed buffer,
      )

  kept_length :
      length (keep is_staged buffer) ≤ max
      → max < length buffer
      → length (evict_committed (length buffer - max) 0 buffer) ≤ max
  kept_length h over =
      omega (arith, evict_committed-length (length buffer - max) 0 buffer, length-split buffer)

  -- Staged slots survive as long as they fit.
  enforce_cap-staged :
      length (keep is_staged buffer) ≤ max
      → keep is_staged (enforce_cap max buffer) ≡ keep is_staged buffer
  unfolding enforce_cap
  enforce_cap-staged h = elim (Bool-cases (ltb max (length buffer))) [
    | inr fits ↦ rw fits
    | inl over ↦
        rw (over, le→ltb max _ (kept_length h (ltb→lt _ _ over)))
          (evict_committed-staged (length buffer - max) 0 buffer)
  ]

  -- Then the oldest committed slots go, as many as are too many.
  enforce_cap-committed :
      length (keep is_staged buffer) ≤ max
      → keep is_committed (enforce_cap max buffer)
        ≡ drop (length buffer - max) (keep is_committed buffer)
  unfolding enforce_cap
  enforce_cap-committed h = elim (Bool-cases (ltb max (length buffer))) [
    | inr fits ↦ let e : length buffer - max ≡ 0 = ground arith in rw (fits, e)
    | inl over ↦
        rw (over, le→ltb max _ (kept_length h (ltb→lt _ _ over)))
          (evict_committed-oldest (length buffer - max) (length buffer - max) 0 buffer
            (omega arith))
  ]

  -- Where the staged slots alone are too many, the newest staged slots are all that is left.
  enforce_cap-overflow :
      max < length (keep is_staged buffer)
      → enforce_cap max buffer ≡ drop (length (keep is_staged buffer) - max) (keep is_staged buffer)
  unfolding enforce_cap
  enforce_cap-overflow h =
      let kept : List Slot = evict_committed (length buffer - max) 0 buffer in
      let split = length-split buffer in
      let size = evict_committed-length (length buffer - max) 0 buffer in
      let long : max < length buffer = omega arith in
      let n : length kept ≡ length (keep is_staged buffer) = omega arith in
      let none_left : length (keep is_committed kept) ≡ 0 = omega (
        arith,
        ap length (
            evict_committed-oldest (length buffer - max) (length buffer - max) 0 buffer
              (omega arith)),
        length-drop (length buffer - max) (keep is_committed buffer),
      ) in
      let same : kept ≡ keep is_staged buffer =
        sym (all_staged kept none_left) ∙ evict_committed-staged (length buffer - max) 0 buffer in
      rw (lt→ltb max _ long, same, lt→ltb max _ h)

  -- The staged slots lose the oldest, as many as they alone are too many.
  pub enforce_cap-staged_all :
      keep is_staged (enforce_cap max buffer)
      ≡ drop (length (keep is_staged buffer) - max) (keep is_staged buffer)
  enforce_cap-staged_all = elim (Bool-cases (ltb max (length (keep is_staged buffer)))) [
    | inl over ↦
        ap (keep is_staged) (enforce_cap-overflow (ltb→lt max _ over))
        ∙ keep-staged_drop (length (keep is_staged buffer) - max) buffer
    | inr fits ↦
        let none_over : length (keep is_staged buffer) - max ≡ 0 = ground arith in
        enforce_cap-staged (ground arith) ∙ rw none_over refl
  ]

  -- The committed slots lose the oldest, as many as the buffer is too long by.
  pub enforce_cap-committed_all :
      keep is_committed (enforce_cap max buffer)
      ≡ drop (length buffer - max) (keep is_committed buffer)
  enforce_cap-committed_all = elim (Bool-cases (ltb max (length (keep is_staged buffer)))) [
    | inl over ↦
        ap (keep is_committed) (enforce_cap-overflow (ltb→lt max _ over))
        ∙ keep-committed_drop (length (keep is_staged buffer) - max) buffer
        ∙ sym (
            drop-all (length buffer - max) (keep is_committed buffer)
              (ground (arith, length-split buffer)))
    | inr fits ↦ enforce_cap-committed (ground arith)
  ]
