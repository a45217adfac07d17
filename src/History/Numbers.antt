-- ===== src/History/Numbers.antt =====
-- The numbers of a history: one for each message, rising, up to the session's counter.
use frost_agent.Prelude.{
  ℕ, zero, suc, ◌+◌, ◌≤◌, ◌<◌, ◌≡◌, refl, ap, List, [], ◌∷◌, ◌++◌, u64, u64_mod, arith, length,
  drop, take,
}
use frost_agent.History.{ChatMessage, fresh, advance, remove_at}

-- A number for each message, rising above `lo`, and up to `hi`.
abbrev pub Numbered : ℕ → ℕ → List ℕ → List ChatMessage → Type 0
Numbered lo hi [] [] = Unit {0}
Numbered lo hi [] (m ∷ ms) = ⊥
Numbered lo hi (n ∷ ns) [] = ⊥
Numbered lo hi (n ∷ ns) (m ∷ ms) = (lo < n) × (n ≤ hi) × Numbered n hi ns ms

pub Numbered-mono :
    {lo lo' hi hi' : ℕ} (ns : List ℕ) (ms : List ChatMessage)
    → lo' ≤ lo
    → hi ≤ hi'
    → Numbered lo hi ns ms
    → Numbered lo' hi' ns ms
Numbered-mono [] [] h k v = tt
Numbered-mono [] (m ∷ ms) h k v = absurd v
Numbered-mono (n ∷ ns) [] h k v = absurd v
Numbered-mono {lo} {lo'} {hi} {hi'} (n ∷ ns) (m ∷ ms) h k v =
    (omega arith, omega arith, Numbered-mono ns ms (omega arith) k v.2)

pub Numbered-length :
    (lo hi : ℕ) (ns : List ℕ) (ms : List ChatMessage) → Numbered lo hi ns ms → length ns ≡ length ms
Numbered-length lo hi [] [] v = refl
Numbered-length lo hi [] (m ∷ ms) v = absurd v
Numbered-length lo hi (n ∷ ns) [] v = absurd v
Numbered-length lo hi (n ∷ ns) (m ∷ ms) v = ap suc (Numbered-length n hi ns ms v.2)

pub Numbered-append :
    (lo mid hi : ℕ) (ns ks : List ℕ) (ms xs : List ChatMessage)
    → lo ≤ mid
    → mid ≤ hi
    → Numbered lo mid ns ms
    → Numbered mid hi ks xs
    → Numbered lo hi (ns ++ ks) (ms ++ xs)
Numbered-append lo mid hi [] ks [] xs h k v w = Numbered-mono ks xs h (omega arith) w
Numbered-append lo mid hi [] ks (m ∷ ms) xs h k v w = absurd v
Numbered-append lo mid hi (n ∷ ns) ks [] xs h k v w = absurd v
Numbered-append lo mid hi (n ∷ ns) ks (m ∷ ms) xs h k v w =
    (v.0, omega arith, Numbered-append n mid hi ns ks ms xs v.1 k v.2 w)

pub Numbered-drop :
    (lo hi k : ℕ) (ns : List ℕ) (ms : List ChatMessage)
    → Numbered lo hi ns ms
    → Numbered lo hi (drop k ns) (drop k ms)
Numbered-drop lo hi zero ns ms v = v
Numbered-drop lo hi (suc k) [] [] v = tt
Numbered-drop lo hi (suc k) [] (m ∷ ms) v = absurd v
Numbered-drop lo hi (suc k) (n ∷ ns) [] v = absurd v
Numbered-drop lo hi (suc k) (n ∷ ns) (m ∷ ms) v =
    Numbered-mono (drop k ns) (drop k ms) (omega arith) (omega arith)
      (Numbered-drop n hi k ns ms v.2)

pub Numbered-take :
    (lo hi k : ℕ) (ns : List ℕ) (ms : List ChatMessage)
    → Numbered lo hi ns ms
    → Numbered lo hi (take k ns) (take k ms)
Numbered-take lo hi zero ns ms v = tt
Numbered-take lo hi (suc k) [] [] v = tt
Numbered-take lo hi (suc k) [] (m ∷ ms) v = absurd v
Numbered-take lo hi (suc k) (n ∷ ns) [] v = absurd v
Numbered-take lo hi (suc k) (n ∷ ns) (m ∷ ms) v = (v.0, v.1, Numbered-take n hi k ns ms v.2)

pub Numbered-remove_at :
    (lo hi i : ℕ) (ns : List ℕ) (ms : List ChatMessage)
    → Numbered lo hi ns ms
    → Numbered lo hi (remove_at i ns) (remove_at i ms)
unfolding remove_at
Numbered-remove_at lo hi i [] [] v = tt
Numbered-remove_at lo hi i [] (m ∷ ms) v = absurd v
Numbered-remove_at lo hi i (n ∷ ns) [] v = absurd v
Numbered-remove_at lo hi zero (n ∷ ns) (m ∷ ms) v =
    Numbered-mono ns ms (omega arith) (omega arith) v.2
Numbered-remove_at lo hi (suc i) (n ∷ ns) (m ∷ ms) v =
    (v.0, v.1, Numbered-remove_at n hi i ns ms v.2)

-- Where the counter does not wrap, it goes up by one for each number.
pub advance_lem : (n count : ℕ) → n + count < u64_mod → advance n count ≡ n + count
unfolding advance
advance_lem n zero h = omega arith
advance_lem n (suc count) h =
    let e : u64 (n + 1) ≡ n + 1 = omega arith in
    rw e (omega (arith, advance_lem (n + 1) count (omega arith)))

pub fresh-Numbered :
    (n : ℕ) (ms : List ChatMessage)
    → n + length ms < u64_mod
    → Numbered n (n + length ms) (fresh n (length ms)) ms
unfolding fresh
fresh-Numbered n [] h = tt
fresh-Numbered n (m ∷ ms) h =
    let e : u64 (n + 1) ≡ n + 1 = omega arith in
    rw e (
      omega arith,
      omega arith,
      Numbered-mono (fresh (n + 1) (length ms)) ms (omega arith) (omega arith)
          (fresh-Numbered (n + 1) ms (omega arith)),
    )
