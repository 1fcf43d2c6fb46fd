-- ===== src/Interval/Times.antt =====
-- The times that an interval comes to: libs/interval-control/src/interval_control.cpp.
use ibm_cics_emulation.Base.{ℕ, ◌+◌, ◌*◌, ◌%◌, ◌≤◌, ◌<◌, leb, if◌then◌else◌, ◌≡◌, arith}
use ibm_cics_emulation.Result.{u32, u64}
use ibm_cics_emulation.Interval.{IntervalSpec, time, at, to_duration, to_abstime}

-- With the clock read at one time, an absolute time that lies ahead is scheduled at most 999
-- microseconds early and never late; one that has passed is scheduled at once.
pub to_abstime-at :
    (today : ℕ → ℕ) (now : ℕ) (spec : IntervalSpec)
    → spec.kind ≡ at
    → now < u64
    → spec.abstime < u64
    → (if leb spec.abstime now
        then to_abstime today now now spec ≡ now
        else (to_abstime today now now spec ≤ spec.abstime)
          × (spec.abstime ≤ to_abstime today now now spec + 999))
unfolding to_abstime to_duration
to_abstime-at today now spec k h a = ground (arith, k, h, a)

-- A time of day that is within a day of the clock is scheduled after the clock's time and at most a day
-- later, but for the fraction of a millisecond that is dropped: today if it lies ahead, otherwise tomorrow.
pub to_abstime-time :
    (today : ℕ → ℕ) (now : ℕ) (spec : IntervalSpec)
    → spec.kind ≡ time
    → now + 86400000000 < u64
    → (target : ℕ) → today ((spec.hours * 10000 + spec.minutes * 100 + spec.seconds) % u32) ≡ target
    → now < target + 86400000000
    → target ≤ now + 86400000000
    → (now ≤ to_abstime today now now spec)
      × (to_abstime today now now spec ≤ now + 86400000000)
      × (if leb target now
          then (to_abstime today now now spec ≤ target + 86400000000)
            × (target + 86400000000 ≤ to_abstime today now now spec + 999)
          else (to_abstime today now now spec ≤ target)
            × (target ≤ to_abstime today now now spec + 999))
unfolding to_abstime to_duration
to_abstime-time today now spec k h target t a b = ground (arith, k, h, t, a, b)
