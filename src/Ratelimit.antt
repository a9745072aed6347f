-- ===== src/Ratelimit.antt =====
-- ratelimit/ratelimit.go: the token bucket, and its waiters.
--
-- Each method is one step on the limiter's state: the mutex makes the bodies atomic. What runs
-- between two rounds of a waiter (refill ticks, SetRate, Stop, other waiters) is a list of events.
pub mod Bucket
pub mod Waiting
pub mod Overflow
mod Tests
use gbf_core.Base.{
  ℕ, zero, suc, ◌+◌, ◌-◌, ◌/◌, ◌%◌, ltb, leb, Bool, true, false, not, ◌&&◌, ◌||◌, if◌then◌else◌,
  Option, none, some, List, [], ◌∷◌,
}
use gbf_core.Base.Int64.{ℤ, pos, negsuc, pos_part, ltℤ, is_positive, add64, sub64}

-- `running` says that the ticker was made, and with it the refill loop.
pub record Limiter : Type 0 where
  pub bytes_per_second : ℤ
  pub bucket : ℤ
  pub frac_accum : ℕ
  pub max_bucket : ℤ
  pub running : Bool
  pub stopped : Bool

abbrev pub bare : Limiter
bare = record {
  bytes_per_second = pos 0;
  bucket = pos 0;
  frac_accum = 0;
  max_bucket = pos 0;
  running = false;
  stopped = false;
}

-- `NewLimiter`; the product with 2 is one in int64.
unfoldable pub new_limiter : ℤ → Limiter
new_limiter rate =
    if is_positive rate
    then record {
      bytes_per_second = rate;
      bucket = rate;
      frac_accum = 0;
      max_bucket = add64 rate rate;
      running = true;
      stopped = false;
    }
    else bare

-- One tick of `refill` at a positive rate r: the whole tenth, the fraction, the cap.
unfoldable pub refill_by : ℕ → Limiter → Limiter
refill_by r l =
    let frac = l.frac_accum + r % 10 in
    let tenth = add64 l.bucket (pos (r / 10)) in
    let filled = if leb 10 frac then add64 tenth (pos (frac / 10)) else tenth in
    record l {
      bucket = if ltℤ l.max_bucket filled then l.max_bucket else filled;
      frac_accum = if leb 10 frac then frac % 10 else frac;
    }

unfoldable pub tick : Limiter → Limiter
tick l =
    if l.running && not l.stopped && is_positive l.bytes_per_second
    then refill_by (pos_part l.bytes_per_second) l
    else l

-- The positive branch of `SetRate`, with the refill loop started where there is none.
unfoldable pub enable : ℤ → Limiter → Limiter
enable rate l =
    let cap = add64 rate rate in
    record l {
      bytes_per_second = rate;
      max_bucket = cap;
      bucket = if l.running then (if ltℤ cap l.bucket then cap else l.bucket) else rate;
      running = true;
    }

-- `SetRate`
unfoldable pub set_rate : ℤ → Limiter → Limiter
unfolding enable
set_rate rate l =
    if l.stopped
    then l
    else if is_positive rate
    then enable rate l
    else record l { bytes_per_second = rate }

-- `Stop`
unfoldable pub stop : Limiter → Limiter
stop l = record l { stopped = true }

-- One round of the loop of `WaitN`, for a bucket that is an int64: what is still wanted, and the
-- limiter.
unfoldable pub take_tokens : ℕ → ℤ → Limiter → ℕ × Limiter
take_tokens n (pos zero) l = (n, l)
take_tokens n (pos (suc b)) l =
    let available = if ltb n (suc b) then n else suc b in
    (n - available, record l { bucket = sub64 l.bucket (pos available) })
take_tokens n (negsuc b) l = (n, l)

pub data Event : Type 0 where
  ticks stops : Event
  sets_rate : ℤ → Event
  takes : ℕ → Event

unfoldable pub step : Limiter → Event → Limiter
unfolding tick stop set_rate take_tokens
step l ticks = tick l
step l stops = stop l
step l (sets_rate rate) = set_rate rate l
step l (takes n) = (take_tokens n l.bucket l).1

unfoldable pub steps : Limiter → List Event → Limiter
unfolding step
steps l [] = l
steps l (ev ∷ evs) = steps (step l ev) evs

-- How a call of `WaitN` stands when its schedule is used up: `pending` with what it still wants.
pub data Outcome : Type 0 where
  returned cancelled : Outcome
  pending : ℕ → Outcome

-- `WaitN`. Each entry of the schedule is one pause: what happens to the limiter meanwhile, and
-- whether the context ends it.
unfoldable pub wait_n : List (List Event × Bool) → ℕ → Limiter → Outcome × Limiter
wait_n [] n l =
    if leb n 0 || not (is_positive l.bytes_per_second)
    then (returned, l)
    else let (left, taken) = take_tokens n l.bucket l in
      if leb left 0 then (returned, taken) else (pending left, taken)
wait_n ((evs, done) ∷ schedule) n l =
    let (left, taken) = take_tokens n l.bucket l in
    let rest = wait_n schedule left (steps taken evs) in
    if leb n 0 || not (is_positive l.bytes_per_second)
    then (returned, l)
    else if leb left 0
    then (returned, taken)
    else if done
    then (cancelled, steps taken evs)
    else rest
