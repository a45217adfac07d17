-- ===== src/BotLoop/Budget.antt =====
-- A marked sender's budget.
use frost_agent.Prelude.{
  ℕ, suc, ◌+◌, ◌≤◌, ◌≡◌, ◌≢◌, ◌⊎◌, refl, ◌∙◌, ap, Bool, true, false, not, ◌&&◌, Option, none, some,
  List, [], ◌∷◌, ℤ, pos, leb, if◌then◌else◌, keep, arith, Bool-cases, inl, inr, min,
}
use frost_agent.Text.{Text, is_empty, text_eq, text_eq_iff}
use frost_agent.BotLoop.{
  count_of, set_count, LoopState, Observation, base_turns, is_over, finish, begin, empty_loop,
}

count_of-keep :
    (sender j : Text) (turns : List (Text × ℕ))
    → text_eq sender j ≡ false
    → count_of j (keep (λ e. not (text_eq e.0 sender)) turns) ≡ count_of j turns
unfolding count_of
count_of-keep sender j [] h = refl
count_of-keep sender j ((name, n) ∷ rest) h = ground (
  arith,
  count_of-keep sender j rest h,
  text_eq_iff name sender,
  text_eq_iff name j,
  text_eq_iff sender j,
)

count_of-set :
    (sender j : Text) (n : ℕ) (turns : List (Text × ℕ))
    → count_of j (set_count sender n turns) ≡ (if text_eq sender j then n else count_of j turns)
unfolding count_of set_count
count_of-set sender j n turns = ground (arith, count_of-keep sender j turns)

-- An ordinary message, observed at once: the sender, whether the sender is marked as a Bot, and
-- whether the message is eligible.
pub record Message : Type 0 where
  pub sender : Text
  pub marked : Bool
  pub eligible : Bool

observe : ℤ → Message → Option Observation → LoopState → LoopState
observe limit m none s = s
observe limit m (some o) s = (finish o m.eligible limit none s).0

unfoldable pub send : ℤ → Text → Message → LoopState → LoopState
unfolding observe
send limit config m s = observe limit m (begin m.sender m.marked config false s) s

unfoldable pub send_all : ℤ → Text → List Message → LoopState → LoopState
send_all limit config [] s = s
send_all limit config (m ∷ ms) s = send_all limit config ms (send limit config m s)

-- The messages that count for a sender.
abbrev pub spent : Text → List Message → ℕ
spent j [] = 0
spent j (m ∷ ms) =
    let rest = spent j ms in
    if m.marked && (m.eligible && text_eq m.sender j) then suc rest else rest

-- An observation without a wake, in the present epoch and under the present configuration.
record IsOrdinary (o : Observation) (s : LoopState) : Type 0 where
  present : o.epoch ≡ s.epoch
  awake : o.explicit_wake ≡ false
  same : text_eq s.config o.config ≡ true

base_turns-ordinary :
    (o : Observation) (eligible : Bool) (s : LoopState)
    → IsOrdinary o s
    → base_turns o eligible s ≡ s.turns
unfolding base_turns
base_turns-ordinary o eligible s v = ground arith

finish-count :
    (n : ℕ) (o : Observation) (eligible : Bool) (j : Text) (s : LoopState)
    → IsOrdinary o s
    → count_of j s.turns ≤ suc n
    → count_of j (finish o eligible (pos (suc n)) none s).0.turns
      ≡ min
          (suc n)
          (count_of j s.turns + (if o.marked && (eligible && text_eq o.sender j) then 1 else 0))
unfolding finish is_over
finish-count n o eligible j s v le =
    let count = count_of o.sender s.turns in
    ground (
      arith,
      base_turns-ordinary o eligible s v,
      v.present,
      count_of-set o.sender j (count + 1) s.turns,
      count_of-set o.sender j count s.turns,
      text_eq_iff o.sender j,
    )

finish-kept :
    (limit : ℤ) (o : Observation) (eligible : Bool) (s : LoopState)
    → IsOrdinary o s
    → ((finish o eligible limit none s).0.config ≡ s.config)
      × ((finish o eligible limit none s).0.epoch ≡ s.epoch)
unfolding finish
finish-kept limit o eligible s v = ground (arith, v.same, text_eq_iff s.config o.config)

abbrev pub observation_of : Text → Message → LoopState → Observation
observation_of config m s = record {
  sender = m.sender;
  marked = m.marked;
  config = config;
  explicit_wake = false;
  epoch = s.epoch;
}

-- The first step of a row of messages, for a sender with a name.
send-count :
    (n : ℕ) (config : Text) (m : Message) (j : Text) (s : LoopState)
    → is_empty j ≡ false
    → s.config ≡ config
    → count_of j s.turns ≤ suc n
    → let t = send (pos (suc n)) config m s in
      (t.config ≡ config)
      × (count_of j t.turns ≡ min (suc n) (count_of j s.turns + spent j (m ∷ [])))
unfolding send begin
send-count n config m j s h same le =
    let o = observation_of config m s in
    let v : IsOrdinary o s = record {
      present = refl;
      awake = refl;
      same = (text_eq_iff s.config config).1 same;
    } in
    elim (Bool-cases (is_empty m.sender)) [
      | inl nameless ↦ rw nameless (same, ground (arith, text_eq_iff m.sender j, ap is_empty))
      | inr named ↦ rw named (
        (finish-kept (pos (suc n)) o m.eligible s v).0 ∙ same,
        finish-count n o m.eligible j s v le,
      )
    ]

send_all-count :
    (n : ℕ) (config : Text) (ms : List Message) (j : Text) (s : LoopState)
    → is_empty j ≡ false
    → s.config ≡ config
    → count_of j s.turns ≤ suc n
    → let t = send_all (pos (suc n)) config ms s in
      (t.config ≡ config) × (count_of j t.turns ≡ min (suc n) (count_of j s.turns + spent j ms))
unfolding send_all
send_all-count n config [] j s h same le = (same, omega arith)
send_all-count n config (m ∷ ms) j s h same le =
    let (same', here) = send-count n config m j s h same le in
    let (config', there) =
      send_all-count n config ms j (send (pos (suc n)) config m s) h same' (omega arith) in
    (config', ground (arith, here, there))

count_of-nil : (j : Text) → count_of j [] ≡ 0
unfolding count_of
count_of-nil j = refl

finish-exceeded :
    (limit : ℤ) (o : Observation) (s : LoopState)
    → IsOrdinary o s
    → o.marked ≡ true
    → (finish o true limit none s).1
      ≡ record { exceeded = is_over limit (count_of o.sender s.turns); admitted = true }
unfolding finish
finish-exceeded limit o s v m = ground (arith, base_turns-ordinary o true s v, v.present)

-- A limit of n + 1 lets n + 1 messages of a Bot pass: after any messages of any senders under one
-- configuration, none of them an explicit wake, the next eligible message of a marked sender is
-- reported as exceeding exactly if at least n + 1 of the messages before it were eligible messages
-- that this sender sent as a marked one.
pub budget_exact :
    (n : ℕ) (config : Text) (ms : List Message) (j : Text)
    → is_empty j ≡ false
    → let s = send_all (pos (suc n)) config ms (record empty_loop { config = config }) in
      let o = observation_of config (record { sender = j; marked = true; eligible = true }) s in
      (finish o true (pos (suc n)) none s).1.exceeded ≡ leb (suc n) (spent j ms)
unfolding is_over
budget_exact n config ms j h =
    let m : Message = record { sender = j; marked = true; eligible = true } in
    let s0 : LoopState = record empty_loop { config = config } in
    let s = send_all (pos (suc n)) config ms s0 in
    let (same, count) = send_all-count n config ms j s0 h refl (omega (arith, count_of-nil j)) in
    let v : IsOrdinary (observation_of config m s) s = record {
      present = refl;
      awake = refl;
      same = (text_eq_iff s.config config).1 same;
    } in
    ground (
      arith,
      finish-exceeded (pos (suc n)) (observation_of config m s) s v refl,
      count,
      count_of-nil j,
    )

-- An observation that its callback does not admit, or that began before the last reset, leaves the
-- budgets and the configuration as they are.
pub unadmitted_unchanged :
    (o : Observation) (eligible : Bool) (limit : ℤ) (admit : Option (Bool → Bool)) (s : LoopState)
    → ((finish o eligible limit admit s).1.admitted ≡ false) ⊎ (o.epoch ≢ s.epoch)
    → (finish o eligible limit admit s).0 ≡ s
unfolding finish
unadmitted_unchanged o eligible limit admit s (inl refused) = ground arith
unadmitted_unchanged o eligible limit admit s (inr old) = ground arith

-- An eligible explicit wake of an unmarked sender, if it is admitted, restores every sender's budget.
pub wake_restores :
    (o : Observation) (limit : ℤ) (admit : Option (Bool → Bool)) (s : LoopState) (j : Text)
    → o.marked ≡ false
    → o.explicit_wake ≡ true
    → (finish o true limit admit s).1.admitted ≡ true
    → count_of j (finish o true limit admit s).0.turns ≡ 0
unfolding finish base_turns count_of
wake_restores o limit admit s j plain wake ok = ground arith
