-- ===== src/Ratelimit/Overflow.antt =====
-- Rates from 2^62 on: the cap of two seconds does not fit an int64.
use gbf_core.Base.{replicate, ℕ, zero, suc, ◌^◌, ◌≤◌, ◌<◌, arith}
use gbf_core.Base.Int64.{pos, pos_part, neg_part, add64}
use gbf_core.Ratelimit.{Limiter, new_limiter, tick, refill_by, ticks, steps}
use gbf_core.Ratelimit.Bucket.{steps-ticks}

-- The bucket and its cap are both below zero.
record IsBroken (l : Limiter) : Type 0 where
  cap : 0 < neg_part l.max_bucket
  below : neg_part l.max_bucket ≤ neg_part l.bucket
  cap_bound : neg_part l.max_bucket ≤ 2 ^ 63
  bucket_bound : neg_part l.bucket ≤ 2 ^ 63
  rate : pos_part l.bytes_per_second < 2 ^ 63
  frac : l.frac_accum < 10

tick-IsBroken : (l : Limiter) → IsBroken l → IsBroken (tick l)
unfolding tick refill_by add64
tick-IsBroken l v = ground arith

first-IsBroken :
    (rate : ℕ) → 2 ^ 62 ≤ rate → rate < 2 ^ 63 → IsBroken (tick (new_limiter (pos rate)))
unfolding tick refill_by add64 new_limiter
first-IsBroken rate lo hi = ground arith

steps-IsBroken : (k : ℕ) (l : Limiter) → IsBroken l → IsBroken (steps l (replicate k ticks))
unfolding steps
steps-IsBroken zero l v = v
steps-IsBroken (suc k) l v = rw (steps-ticks k l) (steps-IsBroken k (tick l) (tick-IsBroken l v))

-- A limiter made with a rate of 2^62 or more has a negative cap, and from the first refill tick on
-- its bucket is below zero, however many ticks follow.
pub bucket_negative :
    (rate k : ℕ)
    → 2 ^ 62 ≤ rate
    → rate < 2 ^ 63
    → (0 < neg_part (new_limiter (pos rate)).max_bucket)
      × (0 < neg_part (steps (new_limiter (pos rate)) (replicate (suc k) ticks)).bucket)
unfolding new_limiter add64
bucket_negative rate k lo hi =
    let v = steps-IsBroken k (tick (new_limiter (pos rate))) (first-IsBroken rate lo hi) in
    (ground arith, rw (steps-ticks k (new_limiter (pos rate))) (omega (arith, v.cap, v.below)))
