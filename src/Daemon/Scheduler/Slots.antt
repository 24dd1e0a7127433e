-- ===== src/Daemon/Scheduler/Slots.antt =====
-- What `GetNextAvailableSlot` returns.
use patience.Base.{
  ℕ, zero, suc, ◌+◌, ◌*◌, ◌≤◌, ◌<◌, ◌≡◌, ◌∙◌, sym, refl, ap, ℤ, pos, ◌+ℤ◌, +ℤ_parts, eq_of_parts,
  String, Bool, true, false, Option, none, some, ◌⊎◌, inl, inr, Bool-cases, dec_lt, arith,
}
use patience.Backoff.Diophantine.{Diophantine}
use patience.Daemon.Scheduler.{
  RequestScheduler, can_schedule_with_strategy, slot_loop, slot_or, get_next_available_slot, minute,
  day,
}

-- The result of looking at the slots from `i` up to `stop` in turn: the first free one, or none.
abbrev FirstSlot : (ℕ → ℤ) → (ℕ → Bool) → ℕ → ℕ → Option ℤ → Type 0
FirstSlot slot free i stop (some t) =
    (j : ℕ) × (i ≤ j)
    × (j < stop)
    × (t ≡ slot j)
    × (free j ≡ true)
    × ((k : ℕ) → i ≤ k → k < j → free k ≡ false)
FirstSlot slot free i stop none = (k : ℕ) → i ≤ k → k < stop → free k ≡ false

skipped :
    (free : ℕ → Bool) (i j k : ℕ)
    → free i ≡ false
    → i ≤ k
    → k < j
    → (i + 1 ≤ k → k < j → free k ≡ false)
    → free k ≡ false
skipped free i j k busy a b later = elim (dec_lt i k) [
  | yes l ↦ later (omega arith) b
  | no n ↦ let e : k ≡ i = omega arith in rw e busy
]

FirstSlot-skip :
    (slot : ℕ → ℤ) (free : ℕ → Bool) (i stop : ℕ) (r : Option ℤ)
    → free i ≡ false
    → FirstSlot slot free (i + 1) stop r
    → FirstSlot slot free i stop r
FirstSlot-skip slot free i stop (some t) busy (j, a, b, e, f, before) =
    (j, omega arith, b, e, f, λ k x y. skipped free i j k busy x y (before k))
FirstSlot-skip slot free i stop none busy h = λ k x y. skipped free i stop k busy x y (h k)

module _ (state : ℕ → RequestScheduler) (resource : String) (strategy : Diophantine)
    (clock : ℕ → ℤ) where
  -- Candidate `i` stands `i` minutes after the preferred time and is tried in round `i`.
  abbrev candidate : ℤ → ℕ → ℤ
  candidate preferred i = preferred +ℤ pos (i * 60000000000)

  abbrev free : ℤ → ℕ → Bool
  free preferred i =
      can_schedule_with_strategy (state i) resource strategy (candidate preferred i) (clock i)

  candidate_next :
      (preferred t : ℤ) (i : ℕ)
      → t ≡ candidate preferred i
      → t +ℤ minute ≡ candidate preferred (i + 1)
  candidate_next preferred t i e =
      ap (λ (z : ℤ). z +ℤ minute) e
      ∙ eq_of_parts _ _ (
          omega (
            arith,
            +ℤ_parts preferred (pos (i * 60000000000)),
            +ℤ_parts (preferred +ℤ pos (i * 60000000000)) minute,
            +ℤ_parts preferred (pos ((i + 1) * 60000000000)),
          ))

  slot_loop_step :
      (rounds i stop : ℕ) (preferred t : ℤ)
      → t ≡ candidate preferred i
      → i < stop
      → FirstSlot
          (candidate preferred)
          (free preferred)
          (i + 1)
          stop
          (slot_loop state resource strategy clock rounds (i + 1) (t +ℤ minute))
      → FirstSlot
          (candidate preferred)
          (free preferred)
          i
          stop
          (slot_loop state resource strategy clock (suc rounds) i t)
  unfolding slot_loop
  slot_loop_step rounds i stop preferred t e h next =
      let here =
        ap (λ (z : ℤ). can_schedule_with_strategy (state i) resource strategy z (clock i))
          (sym e) in
      elim (Bool-cases (can_schedule_with_strategy (state i) resource strategy t (clock i))) [
        | inl open_now ↦
            rw open_now (i, omega arith, h, e, here ∙ open_now, λ k a b. absurd (omega arith))
        | inr busy ↦ rw busy (
            FirstSlot-skip (candidate preferred) (free preferred) i stop
              (slot_loop state resource strategy clock rounds (i + 1) (t +ℤ minute)) (here ∙ busy)
              next)
      ]

  slot_loop-FirstSlot :
      (rounds i stop : ℕ) (preferred t : ℤ)
      → stop ≡ i + rounds
      → t ≡ candidate preferred i
      → FirstSlot
          (candidate preferred)
          (free preferred)
          i
          stop
          (slot_loop state resource strategy clock rounds i t)
  slot_loop-FirstSlot zero i stop preferred t n e =
      unfold slot_loop in λ k a b. absurd (omega arith)
  slot_loop-FirstSlot (suc rounds) i stop preferred t n e =
      slot_loop_step rounds i stop preferred t e (omega arith) (
        slot_loop-FirstSlot rounds (i + 1) stop preferred (t +ℤ minute) (omega arith)
          (candidate_next preferred t i e))

  pick :
      (preferred : ℤ) (r : Option ℤ)
      → FirstSlot (candidate preferred) (free preferred) 0 1440 r
      → ((j : ℕ) × (j < 1440)
          × (slot_or r (preferred +ℤ day) ≡ candidate preferred j)
          × (free preferred j ≡ true)
          × ((k : ℕ) → k < j → free preferred k ≡ false))
        ⊎ ((slot_or r (preferred +ℤ day) ≡ candidate preferred 1440)
            × ((k : ℕ) → k < 1440 → free preferred k ≡ false))
  pick preferred (some t) (j, a, b, e, f, before) =
      inl (j, b, e, f, λ k c. before k (omega arith) c)
  pick preferred none h = inr (refl, λ k c. h k (omega arith) c)

  -- The slot returned is the first of the 1440 minute-spaced candidates from the preferred time on
  -- that the strategy admits by the requests and the time that its round finds, whatever other calls
  -- change between the rounds; if it admits none of them, the slot is the preferred time plus 24 hours,
  -- which no test has admitted.
  pub get_next_available_slot_first :
      (preferred : ℤ)
      → let slot = get_next_available_slot state resource strategy clock preferred in
        ((j : ℕ) × (j < 1440)
          × (slot ≡ candidate preferred j)
          × (free preferred j ≡ true)
          × ((k : ℕ) → k < j → free preferred k ≡ false))
        ⊎ ((slot ≡ candidate preferred 1440) × ((k : ℕ) → k < 1440 → free preferred k ≡ false))
  unfolding get_next_available_slot
  get_next_available_slot_first preferred =
      pick preferred (slot_loop state resource strategy clock 1440 0 preferred) (
        slot_loop-FirstSlot 1440 0 1440 preferred preferred refl
          (eq_of_parts _ _ (omega (arith, +ℤ_parts preferred (pos 0)))))
