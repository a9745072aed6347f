-- ===== src/Ratelimit/Bucket.antt =====
-- The bucket stays between empty and its cap, and every refill tick adds a tenth of the rate.
use gbf_core.Base.{
  All, replicate, ap, ℕ, zero, suc, ◌+◌, ◌*◌, ◌/◌, ◌%◌, ◌^◌, ◌≤◌, ◌<◌, ◌≡◌, refl, ltb, true, false,
  if◌then◌else◌, arith, List, [], ◌∷◌, ◌⊎◌, inl,
}
use gbf_core.Base.Int64.{ℤ, pos, negsuc, pos_part, neg_part, is_positive, add64, sub64}
use gbf_core.Ratelimit.{
  Limiter, new_limiter, refill_by, tick, set_rate, stop, take_tokens, Event, ticks, stops,
  sets_rate, takes, step, steps,
}

-- Rates up to this one leave room for every sum in int64.
abbrev pub rate_limit : ℕ
rate_limit = 2 ^ 60

-- The bucket and its cap are counts, the bucket is at most the cap, the fraction is below ten
-- tenths, and a limited rate has a refill loop and the cap of two seconds.
pub record IsLimiter (l : Limiter) : Type 0 where
  pub bucket_nonneg : neg_part l.bucket ≡ 0
  pub cap_nonneg : neg_part l.max_bucket ≡ 0
  pub bucket_le : pos_part l.bucket ≤ pos_part l.max_bucket
  pub cap_le : pos_part l.max_bucket ≤ 2 * rate_limit
  pub frac_lt : l.frac_accum < 10
  pub rate_le : pos_part l.bytes_per_second ≤ rate_limit
  pub limited :
      (is_positive l.bytes_per_second ≡ false)
      ⊎ ((l.running ≡ true) × (pos_part l.max_bucket ≡ 2 * pos_part l.bytes_per_second))

pub new_limiter-IsLimiter : (rate : ℤ) → pos_part rate ≤ rate_limit → IsLimiter (new_limiter rate)
unfolding new_limiter add64
new_limiter-IsLimiter (pos n) h = ground arith
new_limiter-IsLimiter (negsuc n) h = record {
  bucket_nonneg = refl;
  cap_nonneg = refl;
  bucket_le = omega arith;
  cap_le = omega arith;
  frac_lt = omega arith;
  rate_le = omega arith;
  limited = inl refl;
}

-- In tenths of a token, a tick of a working refill loop within its bounds adds the rate, up to the
-- cap, and keeps the fraction.
pub tick-tenths :
    (l : Limiter)
    → IsLimiter l
    → l.running ≡ true
    → l.stopped ≡ false
    → let have = 10 * pos_part l.bucket + l.frac_accum + pos_part l.bytes_per_second in
      (pos_part (tick l).bucket
        ≡ (if ltb (pos_part l.max_bucket) (have / 10) then pos_part l.max_bucket else have / 10))
      × ((tick l).frac_accum ≡ have % 10)
unfolding tick refill_by add64
tick-tenths l v run live = ground arith

tick-IsLimiter : (l : Limiter) → IsLimiter l → IsLimiter (tick l)
unfolding tick refill_by add64
tick-IsLimiter l v = ground arith

set_rate-IsLimiter :
    (rate : ℤ) (l : Limiter)
    → pos_part rate ≤ rate_limit
    → IsLimiter l
    → IsLimiter (set_rate rate l)
unfolding set_rate add64
set_rate-IsLimiter rate l h v = ground arith

pub take_tokens-IsLimiter :
    (n : ℕ) (l : Limiter) → IsLimiter l → IsLimiter (take_tokens n l.bucket l).1
unfolding take_tokens sub64
take_tokens-IsLimiter n l v = ground arith

-- An event that sets no rate above the limit.
abbrev pub IsBounded : Event → Type 0
IsBounded ticks = Unit {0}
IsBounded stops = Unit {0}
IsBounded (sets_rate rate) = pos_part rate ≤ rate_limit
IsBounded (takes n) = Unit {0}

step-IsLimiter : (l : Limiter) (ev : Event) → IsBounded ev → IsLimiter l → IsLimiter (step l ev)
unfolding step stop
step-IsLimiter l ticks b v = tick-IsLimiter l v
step-IsLimiter l stops b v = ground arith
step-IsLimiter l (sets_rate rate) b v = set_rate-IsLimiter rate l b v
step-IsLimiter l (takes n) b v = take_tokens-IsLimiter n l v

-- From a limiter whose bucket is between empty and its cap, any sequence of ticks, stops, takes and
-- rates of at most 2^60 leads to another such limiter.
pub steps-IsLimiter :
    (l : Limiter) (evs : List Event) → All IsBounded evs → IsLimiter l → IsLimiter (steps l evs)
unfolding steps
steps-IsLimiter l [] b v = v
steps-IsLimiter l (ev ∷ evs) b v = steps-IsLimiter (step l ev) evs b.1 (step-IsLimiter l ev b.0 v)

-- A refill loop at work: the ticker runs, nobody stopped it, and the rate is limited.
pub record IsLive (l : Limiter) : Type 0 where
  pub valid : IsLimiter l
  pub ticking : l.running ≡ true
  pub live : l.stopped ≡ false
  pub positive : is_positive l.bytes_per_second ≡ true

pub tick-IsLive :
    (l : Limiter)
    → IsLive l
    → IsLive (tick l)
      × (pos_part (tick l).max_bucket ≡ pos_part l.max_bucket)
      × ((tick l).bytes_per_second ≡ l.bytes_per_second)
unfolding tick refill_by
tick-IsLive l v = (
  record {
    valid = tick-IsLimiter l v.valid;
    ticking = ground arith;
    live = ground arith;
    positive = ground arith;
  },
  ground arith,
  ground arith,
)

tick_exact :
    (l : Limiter)
    → IsLive l
    → 10 * pos_part l.bucket + l.frac_accum + pos_part l.bytes_per_second
      ≤ 10 * pos_part l.max_bucket
    → 10 * pos_part (tick l).bucket + (tick l).frac_accum
      ≡ 10 * pos_part l.bucket + l.frac_accum + pos_part l.bytes_per_second
tick_exact l v room = ground (arith, tick-tenths l v.valid v.ticking v.live)

pub steps-ticks :
    (k : ℕ) (l : Limiter) → steps l (replicate (suc k) ticks) ≡ steps (tick l) (replicate k ticks)
unfolding steps step
steps-ticks k l = refl

-- In tenths of a token, k ticks of a working refill loop add exactly k times the rate, if the cap
-- leaves the room.
pub refill_exact :
    (k : ℕ) (l : Limiter)
    → IsLive l
    → 10 * pos_part l.bucket + l.frac_accum + k * pos_part l.bytes_per_second
      ≤ 10 * pos_part l.max_bucket
    → 10 * pos_part (steps l (replicate k ticks)).bucket + (steps l (replicate k ticks)).frac_accum
      ≡ 10 * pos_part l.bucket + l.frac_accum + k * pos_part l.bytes_per_second
unfolding steps
refill_exact zero l v room = omega arith
refill_exact (suc k) l v room =
    let (v', cap, rate) = tick-IsLive l v in
    let one = tick_exact l v (omega arith) in
    let same : k * pos_part (tick l).bytes_per_second ≡ k * pos_part l.bytes_per_second =
      ap (λ x. k * pos_part x) rate in
    rw (steps-ticks k l)
      (omega (arith, one, same, refill_exact k (tick l) v' (omega (arith, one, same, cap))))
