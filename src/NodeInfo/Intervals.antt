-- ===== src/NodeInfo/Intervals.antt =====
-- The bounds of the intervals at which a node asks and reports.
use v2node_hy.Base.{ℕ, ◌*◌, ◌≤◌, ℤ, pos, wrap_exact, ◌≤ℤ◌, ◌≡◌, Option, none, some, arith}
use v2node_hy.NodeInfo.{
  Number, int_value, seconds_of, nanoseconds, checked_interval, interval_to_time,
  min_panel_interval, second,
}

checked_interval-bound :
    (o : Option ℤ) (fallback : ℤ)
    → min_panel_interval ≤ℤ fallback
    → min_panel_interval ≤ℤ checked_interval o fallback
unfolding checked_interval
checked_interval-bound none fallback h = h
checked_interval-bound (some s) fallback h = ground arith

-- No setting of the panel makes an interval shorter than five seconds, not even one that
-- overflows: whatever the value, the result is at least that, if the fallback is.
pub interval_to_time-bound :
    (i : Number) (fallback : ℤ)
    → min_panel_interval ≤ℤ fallback
    → min_panel_interval ≤ℤ interval_to_time i fallback
unfolding interval_to_time
interval_to_time-bound i fallback h = checked_interval-bound (seconds_of i) fallback h

-- A number of seconds that `int64` nanoseconds can hold is taken as it is, from five upwards.
interval_to_time_exact :
    (n : ℕ) (fallback : ℤ)
    → 5 ≤ n
    → n ≤ 9_223_372_036
    → interval_to_time (int_value (pos n)) fallback ≡ pos (n * second)
unfolding interval_to_time seconds_of checked_interval nanoseconds
interval_to_time_exact n fallback h k = ground (arith, wrap_exact (pos (n * second)) (ground arith))
