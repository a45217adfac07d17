-- ===== src/GroupCompact/Buffer/Order.antt =====
-- The order of the sequence numbers along the buffer.
use frost_agent.Prelude.{
  ℕ, zero, suc, ◌+◌, ◌-◌, ◌≤◌, ◌<◌, ◌≡◌, refl, inl, inr, Bool, true, false, List, [], ◌∷◌, ◌++◌,
  arith, ltb, leb, length, drop, keep, Bool-cases, keep_everything, All, ltb→lt,
}
use frost_agent.GroupCompact.Buffer.{Slot, evict_committed, enforce_cap, unstage, after_sequence}

-- Rising above `lo`, and up to `hi`.
abbrev pub Between : ℕ → ℕ → List Slot → Type 0
Between lo hi [] = Unit {0}
Between lo hi (x ∷ xs) = (lo < x.sequence) × (x.sequence ≤ hi) × Between x.sequence hi xs

pub Between-mono :
    {lo lo' hi hi' : ℕ} (xs : List Slot)
    → lo' ≤ lo
    → hi ≤ hi'
    → Between lo hi xs
    → Between lo' hi' xs
Between-mono [] h k b = tt
Between-mono {lo} {lo'} {hi} {hi'} (x ∷ xs) h k b =
    (omega arith, omega arith, Between-mono xs (omega arith) k b.2)

evict_committed-Between :
    (lo hi excess dropped : ℕ) (xs : List Slot)
    → Between lo hi xs
    → Between lo hi (evict_committed excess dropped xs)
unfolding evict_committed
evict_committed-Between lo hi excess dropped [] b = tt
evict_committed-Between lo hi excess dropped (x ∷ xs) b =
    let stay = evict_committed-Between x.sequence hi excess dropped xs b.2 in
    let out = evict_committed-Between x.sequence hi excess (dropped + 1) xs b.2 in
    ground (
      arith,
      stay,
      Between-mono {lo = x.sequence} {lo' = lo} {hi = hi} {hi' = hi}
          (evict_committed excess (dropped + 1) xs) (omega arith) (omega arith) out,
    )

drop-Between : (lo hi n : ℕ) (xs : List Slot) → Between lo hi xs → Between lo hi (drop n xs)
drop-Between lo hi zero xs b = b
drop-Between lo hi (suc n) [] b = tt
drop-Between lo hi (suc n) (x ∷ xs) b =
    Between-mono (drop n xs) (omega arith) (omega arith) (drop-Between x.sequence hi n xs b.2)

pub enforce_cap-Between :
    (lo hi max : ℕ) (xs : List Slot) → Between lo hi xs → Between lo hi (enforce_cap max xs)
unfolding enforce_cap
enforce_cap-Between lo hi max xs b =
    let kept : List Slot = evict_committed (length xs - max) 0 xs in
    let once = evict_committed-Between lo hi (length xs - max) 0 xs b in
    ground (arith, once, drop-Between lo hi (length kept - max) kept once)

pub unstage-Between :
    (lo hi : ℕ) (hit : Slot → Bool) (xs : List Slot)
    → Between lo hi xs
    → Between lo hi (unstage hit xs)
unfolding unstage
unstage-Between lo hi hit [] b = tt
unstage-Between lo hi hit (x ∷ xs) b = ground (arith, unstage-Between x.sequence hi hit xs b.2)

pub keep-Between :
    (lo hi : ℕ) (p : Slot → Bool) (xs : List Slot) → Between lo hi xs → Between lo hi (keep p xs)
keep-Between lo hi p [] b = tt
keep-Between lo hi p (x ∷ xs) b =
    let rest = keep-Between x.sequence hi p xs b.2 in
    elim (Bool-cases (p x)) [
      | inl e ↦ rw e (b.0, b.1, rest)
      | inr e ↦ rw e (Between-mono (keep p xs) (omega arith) (omega arith) rest)
    ]

-- A slot with a number above all others goes to the end.
pub append-Between :
    (lo hi n : ℕ) (xs : List Slot) (x : Slot)
    → Between lo hi xs
    → lo < n
    → hi < n
    → x.sequence ≡ n
    → Between lo n (xs ++ x ∷ [])
append-Between lo hi n [] x b k h e = (omega arith, omega arith, tt)
append-Between lo hi n (y ∷ ys) x b k h e =
    (b.0, omega arith, append-Between y.sequence hi n ys x b.2 (omega arith) h e)

Between-All :
    (lo hi : ℕ) (xs : List Slot) → Between lo hi xs → All (λ x. ltb lo x.sequence ≡ true) xs
Between-All lo hi [] b = tt
Between-All lo hi (x ∷ xs) b =
    (ground arith, Between-All lo hi xs (Between-mono xs (omega arith) (omega arith) b.2))

-- The walk from the front removes every slot up to the number, wherever it stands.
pub after_sequence-keep :
    (lo hi through : ℕ) (xs : List Slot)
    → Between lo hi xs
    → after_sequence through xs ≡ keep (λ x. ltb through x.sequence) xs
unfolding after_sequence
after_sequence-keep lo hi through [] b = refl
after_sequence-keep lo hi through (x ∷ xs) b = elim (Bool-cases (ltb through x.sequence)) [
  | inl newer ↦
      let older : leb x.sequence through ≡ false = ground arith in
      let rest =
        Between-All through hi xs
          (Between-mono xs (omega (arith, ltb→lt through x.sequence newer)) (omega arith) b.2) in
      rw (newer, older, keep_everything (λ y. ltb through y.sequence) xs rest)
  | inr older ↦
      let older' : leb x.sequence through ≡ true = ground arith in
      rw (older, older') (after_sequence-keep x.sequence hi through xs b.2)
]

pub after_sequence-Between :
    (lo hi through : ℕ) (xs : List Slot)
    → Between lo hi xs
    → Between lo hi (after_sequence through xs)
after_sequence-Between lo hi through xs b =
    rw (after_sequence-keep lo hi through xs b)
      (keep-Between lo hi (λ x. ltb through x.sequence) xs b)
