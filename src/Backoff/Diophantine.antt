-- ===== src/Backoff/Diophantine.antt =====
-- DiophantineStrategy (pkg/backoff/diophantine.go). An instant (`time.Time`) is a whole number of
-- nanoseconds from some epoch; `t.Add(d)` is addition.
pub mod Sorted
pub mod Windows
pub mod Doubling
use patience.Base.{
  ℕ, zero, suc, ◌-◌, ℤ, pos, pos_part, ◌+ℤ◌, ◌*ℤ◌, ltb_ℤ, leb_ℤ, wrap64, Bool, true, false, List,
  [], ◌∷◌, ◌++◌, map, if◌then◌else◌,
}

pub record Diophantine : Type 0 where
  pub rate_limit : ℤ
  pub window : ℤ
  pub retry_offsets : List ℤ

-- `sort.Slice` by `Before`. Equal instants are the same value, so the sorted slice is unique.
unfoldable pub insert_time : ℤ → List ℤ → List ℤ
insert_time t [] = t ∷ []
insert_time t (u ∷ us) = let rest = insert_time t us in if ltb_ℤ u t then u ∷ rest else t ∷ u ∷ us

unfoldable pub sort_times : List ℤ → List ℤ
sort_times [] = []
sort_times (t ∷ ts) = insert_time t (sort_times ts)

-- The inner loop: `for j := i; j < len && allRequests[j].Before(windowEnd); j++ { count++ }`, over
-- the slice from `i` on.
unfoldable pub count_window : ℤ → List ℤ → ℕ
count_window window_end [] = 0
count_window window_end (t ∷ ts) =
    let rest = count_window window_end ts in if ltb_ℤ t window_end then suc rest else 0

-- The outer loop, over the slice from `i` on.
unfoldable pub windows_fit : ℤ → ℤ → List ℤ → Bool
windows_fit limit window [] = true
windows_fit limit window (t ∷ ts) =
    let rest = windows_fit limit window ts in
    if ltb_ℤ limit (pos (count_window (t +ℤ window) (t ∷ ts))) then false else rest

unfoldable pub planned : Diophantine → ℤ → List ℤ
planned d request_time = map (λ offset. request_time +ℤ offset) d.retry_offsets

unfoldable pub can_schedule_request : Diophantine → List ℤ → ℤ → Bool
can_schedule_request d existing request_time =
    windows_fit d.rate_limit d.window (sort_times (existing ++ planned d request_time))

abbrev pub second : ℤ
second = pos 1000000000

abbrev pub hour : ℤ
hour = pos 3600000000000

-- `if len(d.retryOffsets) > 1 { baseDelay = d.retryOffsets[1] }`
unfoldable pub base_delay : List ℤ → ℤ
base_delay (_ ∷ (offset ∷ _)) = offset
base_delay _ = second

-- The loop `for i := 1; i < attempt; i++`, by the rounds left.
unfoldable pub double_loop : ℕ → ℤ → ℤ
double_loop zero delay = delay
double_loop (suc rounds) delay =
    let doubled = wrap64 (delay *ℤ pos 2) in
    let rest = double_loop rounds doubled in if ltb_ℤ hour doubled then hour else rest

unfoldable pub diophantine_delay : Diophantine → ℤ → ℤ
diophantine_delay d attempt =
    if leb_ℤ attempt (pos 0)
    then second
    else double_loop (pos_part attempt - 1) (base_delay d.retry_offsets)
