-- ===== src/Backoff/Cap.antt =====
-- The cap that the strategies of pkg/backoff/strategy.go put on a computed delay.
use patience.Base.{ℤ, pos, ◌≤ℤ◌, ◌<ℤ◌, ltb_ℤ, ◌&&◌, if◌then◌else◌, arith}

-- `if max > 0 && delay > max { delay = max }`: 0 means no limit.
unfoldable pub cap : ℤ → ℤ → ℤ
cap max_delay delay = if ltb_ℤ (pos 0) max_delay && ltb_ℤ max_delay delay then max_delay else delay

pub cap-le : (max_delay delay : ℤ) → pos 0 <ℤ max_delay → cap max_delay delay ≤ℤ max_delay
unfolding cap
cap-le m d h = ground arith

pub cap-le-self : (max_delay delay : ℤ) → cap max_delay delay ≤ℤ delay
unfolding cap
cap-le-self m d = ground arith

pub cap_mono : (max_delay d e : ℤ) → d ≤ℤ e → cap max_delay d ≤ℤ cap max_delay e
unfolding cap
cap_mono m d e h = ground arith
