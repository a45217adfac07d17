-- ===== src/GroupCompact/Recent/Window.antt =====
-- What a window of recent messages holds.
use mathlib.Core.List.{reverse-cons, map-append, Memᴰ}
use frost_agent.Prelude.{
  ℕ, suc, ◌+◌, ◌≤◌, ◌<◌, ◌≡◌, refl, sym, ◌∙◌, ap, ◌⊎◌, inl, inr, List, [], ◌∷◌, ◌++◌, reverse, map,
  arith, length, length-append, length-take, pos, take, Bool-cases,
}
use frost_agent.Text.{Text, trim_space}
use frost_agent.GroupCompact.Message.{GroupCompactMessage, format_display}
use frost_agent.GroupCompact.Buffer.{Slot}
use frost_agent.GroupCompact.State.{GroupState}
use frost_agent.GroupCompact.Recent.{
  Verdict, stop, cut_off, select, skips, truncated, verdict, structured_walk, plain_walk,
  recent_structured, recent_plain, snapshot_context,
}

-- The signs of all texts together.
abbrev pub total_length : List Text → ℕ
total_length [] = 0
total_length (s ∷ ss) = length s + total_length ss

total_length-append :
    (ss ts : List Text) → total_length (ss ++ ts) ≡ total_length ss + total_length ts
total_length-append [] ts = omega arith
total_length-append (s ∷ ss) ts = omega (arith, total_length-append ss ts)

total_length-reverse : (ss : List Text) → total_length (reverse ss) ≡ total_length ss
total_length-reverse [] = refl
total_length-reverse (s ∷ ss) = omega (
  arith,
  ap total_length (reverse-cons s ss),
  total_length-append (reverse ss) (s ∷ []),
  total_length-reverse ss,
)

length-reverse {ℓ} : {A : Type ℓ} (xs : List A) → length (reverse xs) ≡ length xs
length-reverse [] = refl
length-reverse (x ∷ xs) =
    omega
      (arith, ap length (reverse-cons x xs), length-append (reverse xs) (x ∷ []), length-reverse xs)

map-reverse {ℓ κ} :
    {A : Type ℓ} {B : Type κ} (f : A → B) (xs : List A) → map f (reverse xs) ≡ reverse (map f xs)
map-reverse f [] = refl
map-reverse f (x ∷ xs) =
    rw (reverse-cons x xs, map-append, map-reverse f xs, reverse-cons (f x) (map f xs))

plain_walk-bounds :
    (limit max : ℕ) (exclude : Text) (count total : ℕ) (xs : List Slot)
    → count ≤ limit
    → total ≤ max
    → (0 < count) ⊎ (total ≡ 0)
    → (count + length (plain_walk limit max exclude count total xs) ≤ limit)
      × (total + total_length (plain_walk limit max exclude count total xs) ≤ max)
unfolding plain_walk verdict
plain_walk-bounds limit max exclude count total [] h k z = (omega arith, omega arith)
plain_walk-bounds limit max exclude count total (x ∷ xs) h k z =
    let len = length (format_display x.message) in
    ground (
      arith,
      plain_walk-bounds limit max exclude count total xs h k z,
      plain_walk-bounds limit max exclude (suc count) (total + len) xs,
      length-take max (format_display x.message),
    )

-- Once something is selected, the two walks select the same messages.
walks_later :
    (limit max : ℕ) (exclude : Text) (count total : ℕ) (xs : List Slot)
    → 0 < count
    → plain_walk limit max exclude count total xs
      ≡ map format_display (structured_walk limit max exclude count total xs)
unfolding plain_walk structured_walk verdict
walks_later limit max exclude count total [] h = refl
walks_later limit max exclude count total (x ∷ xs) h =
    let len = length (format_display x.message) in
    ground (
      arith,
      walks_later limit max exclude count total xs h,
      walks_later limit max exclude (suc count) (total + len) xs,
    )

-- One message of the slots, which is too long, is all that the windows hold, cut.
abbrev pub Cut : ℕ → List Slot → List Text → List GroupCompactMessage → Type 0
Cut max xs ts ms =
    (x : Slot) × Memᴰ x xs
    × (max < length (format_display x.message))
    × (ts ≡ take max (format_display x.message) ∷ [])
    × (ms ≡ truncated max x.message ∷ [])

-- The windows hold the same messages, or one message that is cut.
abbrev Agree : ℕ → List Slot → List Text → List GroupCompactMessage → Type 0
Agree max xs ts ms = (ts ≡ map format_display ms) ⊎ Cut max xs ts ms

later-Agree :
    (max : ℕ) (y : Slot) (xs : List Slot) (ts : List Text) (ms : List GroupCompactMessage)
    → Agree max xs ts ms
    → Agree max (y ∷ xs) ts ms
later-Agree max y xs ts ms (inl e) = inl e
later-Agree max y xs ts ms (inr (x, there, long, a, b)) = inr (x, Memᴰ.tail there, long, a, b)

-- What the first message that is looked at comes to.
verdict-Agree :
    (max : ℕ) (x : Slot) (xs : List Slot) (v : Verdict) (ts : List Text)
    (ms : List GroupCompactMessage)
    → (v ≡ cut_off → max < length (format_display x.message))
    → ts ≡ map format_display ms
    → Agree max
        (x ∷ xs)
        (elim v as (λ z. List Text) [
          | stop ↦ []
          | cut_off ↦ take max (format_display x.message) ∷ []
          | select ↦ format_display x.message ∷ ts
        ])
        (elim v as (λ z. List GroupCompactMessage) [
          | stop ↦ []
          | cut_off ↦ truncated max x.message ∷ []
          | select ↦ x.message ∷ ms
        ])
verdict-Agree max x xs stop ts ms long e = inl refl
verdict-Agree max x xs cut_off ts ms long e = inr (x, Memᴰ.head refl, long refl, refl, refl)
verdict-Agree max x xs select ts ms long e = inl (ap (λ k. format_display x.message ∷ k) e)

too_long : (limit max len : ℕ) → verdict limit max 0 0 len ≡ cut_off → max < len
unfolding verdict
too_long limit max len e = ground (arith, e)

walks-Agree :
    (limit max : ℕ) (exclude : Text) (xs : List Slot)
    → Agree max xs (plain_walk limit max exclude 0 0 xs) (structured_walk limit max exclude 0 0 xs)
unfolding plain_walk structured_walk
walks-Agree limit max exclude [] = inl refl
walks-Agree limit max exclude (x ∷ xs) =
    let len = length (format_display x.message) in
    elim (Bool-cases (skips exclude x)) [
      | inl passed ↦
          rw (passed, plain_walk, structured_walk)
            (later-Agree max x xs _ _ (walks-Agree limit max exclude xs))
      | inr seen ↦
          rw (seen, plain_walk, structured_walk)
            (verdict-Agree max x xs (verdict limit max 0 0 len) _ _ (too_long limit max len)
              (walks_later limit max exclude 1 (0 + len) xs (omega arith)))
    ]

reverse-Agree :
    (max : ℕ) (xs : List Slot) (ts : List Text) (ms : List GroupCompactMessage)
    → Agree max xs ts ms
    → Agree max xs (reverse ts) (reverse ms)
reverse-Agree max xs ts ms (inl e) = inl (ap reverse e ∙ sym (map-reverse format_display ms))
reverse-Agree max xs ts ms (inr (x, there, long, a, b)) =
    inr (x, there, long, ap reverse a, ap reverse b)

-- The window of texts in the snapshot that a prompt gets has at most `limit` entries and, together,
-- at most `max_chars` signs; the window of records holds the same messages in the same order, but
-- where a single message of the buffer is too long for the window: then the one has its text alone,
-- cut to `max_chars`, and the other its record alone, truncated.
pub recent_bounded :
    (limit max_chars : ℕ) (exclude_id : Text) (s : GroupState)
    → let c = snapshot_context (pos limit) (pos max_chars) exclude_id s in
      (length c.recent_messages ≤ limit)
      × (total_length c.recent_messages ≤ max_chars)
      × ((c.recent_messages ≡ map format_display c.recent_structured_messages)
          ⊎ Cut max_chars (reverse s.buffer) c.recent_messages c.recent_structured_messages)
unfolding snapshot_context recent_plain recent_structured
recent_bounded limit max_chars exclude_id s =
    let exclude = trim_space exclude_id in
    let slots = reverse s.buffer in
    let texts = plain_walk limit max_chars exclude 0 0 slots in
    let b =
      plain_walk-bounds limit max_chars exclude 0 0 slots (omega arith) (omega arith) (inr refl) in
    (
      omega (arith, length-reverse texts, b.0),
      omega (arith, total_length-reverse texts, b.1),
      reverse-Agree max_chars slots texts _ (walks-Agree limit max_chars exclude slots),
    )
