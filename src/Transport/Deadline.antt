-- ===== src/Transport/Deadline.antt =====
-- src/op_time.h: the time at which a wait ends.
use openport_j.Base.{ℕ, ◌+◌, ◌-◌, ◌*◌, ◌/◌, ◌%◌, ◌<◌, ◌≡◌, arith, leb, if◌then◌else◌}

-- `struct timespec`
pub record Timespec : Type 0 where
  pub tv_sec : ℕ
  pub tv_nsec : ℕ

abbrev pub carried : Timespec → Timespec
carried ts =
    if leb 1000000000 ts.tv_nsec
    then record { tv_sec = ts.tv_sec + 1; tv_nsec = ts.tv_nsec - 1000000000 }
    else ts

-- `sec` and `usec` are what gettimeofday returns.
unfoldable pub op_deadline_in : ℕ → ℕ → ℕ → Timespec
op_deadline_in sec usec ms =
    carried (record { tv_sec = sec + ms / 1000; tv_nsec = usec * 1000 + ms % 1000 * 1000000 })

-- From a clock that reads less than a million microseconds, the deadline is exactly `ms`
-- milliseconds later and a valid timespec.
pub op_deadline_in_lem :
    (sec usec ms : ℕ)
    → usec < 1000000
    → ((op_deadline_in sec usec ms).tv_nsec < 1000000000)
      × ((op_deadline_in sec usec ms).tv_sec * 1000000000 + (op_deadline_in sec usec ms).tv_nsec
          ≡ sec * 1000000000 + usec * 1000 + ms * 1000000)
unfolding op_deadline_in
op_deadline_in_lem sec usec ms h = ground arith
