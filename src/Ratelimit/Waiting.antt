-- ===== src/Ratelimit/Waiting.antt =====
-- What `WaitN` does with the bucket: it takes what it was asked for, a refill loop at work serves
-- it, lifting the limit lets it go, and a stopped limiter refills nobody.
use gbf_core.Base.{
  All, ap, ◌∙◌, ℕ, suc, ◌+◌, ◌-◌, ◌*◌, ◌≤◌, ◌<◌, ◌≡◌, refl, Bool, true, false, arith, List, [], ◌∷◌,
  if◌then◌else◌, ◌⊎◌, inl, inr, ◌≢◌,
}
use gbf_core.Base.Int64.{ℤ, pos_part, is_positive, sub64}
use gbf_core.Ratelimit.{
  Limiter, tick, set_rate, stop, take_tokens, Event, ticks, stops, sets_rate, takes, step, steps,
  returned, wait_n,
}
use gbf_core.Ratelimit.Bucket.{IsLimiter, IsLive, tick-IsLive, tick-tenths, take_tokens-IsLimiter}

-- From a limiter within its bounds a round takes as many tokens off the want as off the bucket, and
-- leaves one of the two empty.
pub take_tokens_lem :
    (n : ℕ) (l : Limiter)
    → IsLimiter l
    → let (left, taken) = take_tokens n l.bucket l in
      (left + pos_part l.bucket ≡ n + pos_part taken.bucket)
      × ((left ≡ 0) ⊎ (pos_part taken.bucket ≡ 0))
unfolding take_tokens sub64
take_tokens_lem n l v = ground arith

-- A limiter whose bucket holds a token and whose refill loop works stays so when tokens are taken.
take_tokens-IsLive : (n : ℕ) (l : Limiter) → IsLive l → IsLive (take_tokens n l.bucket l).1
unfolding take_tokens sub64
take_tokens-IsLive n l v = record {
  valid = take_tokens-IsLimiter n l v.valid;
  ticking = ground arith;
  live = ground arith;
  positive = ground arith;
}

tick_gains :
    (j : ℕ) (l : Limiter)
    → IsLive l
    → j < 10
    → j ≤ 10 * pos_part l.bucket + l.frac_accum
    → suc j ≤ 10 * pos_part (tick l).bucket + (tick l).frac_accum
tick_gains j l v h p = ground (arith, tick-tenths l v.valid v.ticking v.live)

-- A pause of `WaitN`, of 10 or 50 ms: one tick of the ticker of 100 ms falls into it, or none. The
-- context is not done, and no other call takes tokens.
abbrev pub pause : Bool → List Event × Bool
pause ticked = (if ticked then ticks ∷ [] else [], false)

abbrev pub pauses : List Bool → List (List Event × Bool)
pauses [] = []
pauses (ticked ∷ rest) = pause ticked ∷ pauses rest

abbrev pub tick_count : List Bool → ℕ
tick_count [] = 0
tick_count (true ∷ rest) = suc (tick_count rest)
tick_count (false ∷ rest) = tick_count rest

wait_n-pause :
    (evs : List Event) (schedule : List (List Event × Bool)) (n : ℕ) (l : Limiter)
    → (let (left, taken) = take_tokens n l.bucket l in
        (left ≡ 0) ⊎ ((wait_n schedule left (steps taken evs)).0 ≡ returned))
    → (wait_n ((evs, false) ∷ schedule) n l).0 ≡ returned
unfolding wait_n
wait_n-pause evs schedule n l (inl served) = ground arith
wait_n-pause evs schedule n l (inr later) = ground arith

wait_n-last :
    (n : ℕ) (l : Limiter) → (take_tokens n l.bucket l).0 ≡ 0 → (wait_n [] n l).0 ≡ returned
unfolding wait_n
wait_n-last n l h = ground arith

take_tokens-frac_accum :
    (n : ℕ) (l : Limiter) → (take_tokens n l.bucket l).1.frac_accum ≡ l.frac_accum
unfolding take_tokens
take_tokens-frac_accum n l = ground arith

-- What a waiter for n still lacks, in tenths of a token, is at most the ticks that are to come.
served :
    (ticked : List Bool) (n : ℕ) (l : Limiter)
    → IsLive l
    → 10 * n ≤ 10 * pos_part l.bucket + l.frac_accum + tick_count ticked
    → (wait_n (pauses ticked) n l).0 ≡ returned
unfolding steps step
served [] n l v h =
    let (moved, exhausted) = take_tokens_lem n l v.valid in
    wait_n-last n l (omega (arith, moved, exhausted, h, v.valid.frac_lt))
served (false ∷ rest) n l v h =
    let (left, taken) = take_tokens n l.bucket l in
    let (moved, exhausted) = take_tokens_lem n l v.valid in
    let kept = take_tokens-frac_accum n l in
    wait_n-pause [] (pauses rest) n l
      (inr (served rest left taken (take_tokens-IsLive n l v) (omega (arith, moved, kept, h))))
served (true ∷ rest) n l v h =
    let (left, taken) = take_tokens n l.bucket l in
    let (moved, exhausted) = take_tokens_lem n l v.valid in
    let kept = take_tokens-frac_accum n l in
    let v' = take_tokens-IsLive n l v in
    wait_n-pause (ticks ∷ []) (pauses rest) n l (elim exhausted [
      | inl done ↦ inl done
      | inr emptied ↦
          let gained = tick_gains taken.frac_accum taken v' v'.valid.frac_lt (omega arith) in
          inr (
            served rest left (tick taken) (tick-IsLive taken v').0
              (omega (arith, moved, kept, emptied, gained, h)))
    ])

-- While the refill loop of a limiter with a bounded positive rate works and no other call takes
-- tokens, a waiter for n bytes returns within any sequence of pauses, of at most one tick each,
-- that has ten ticks for each byte.
pub wait_n_served :
    (ticked : List Bool) (n : ℕ) (l : Limiter)
    → IsLive l
    → 10 * n ≤ tick_count ticked
    → (wait_n (pauses ticked) n l).0 ≡ returned
wait_n_served ticked n l v h = served ticked n l v (omega (arith, h))

wait_n-unlimited :
    (schedule : List (List Event × Bool)) (n : ℕ) (l : Limiter)
    → is_positive l.bytes_per_second ≡ false
    → (wait_n schedule n l).0 ≡ returned
unfolding wait_n
wait_n-unlimited [] n l h = ground arith
wait_n-unlimited ((evs, done) ∷ schedule) n l h = ground arith

set_rate_lifts :
    (n : ℕ) (rate : ℤ) (l : Limiter)
    → l.stopped ≡ false
    → is_positive rate ≡ false
    → is_positive (steps (take_tokens n l.bucket l).1 (sets_rate rate ∷ [])).bytes_per_second
      ≡ false
unfolding steps set_rate take_tokens
set_rate_lifts n rate l live lifted = ground arith

-- Unless the limiter was stopped, lifting its limit during the first pause lets a waiter return,
-- whatever it waits for.
pub wait_n_lifted :
    (rate : ℤ) (schedule : List (List Event × Bool)) (n : ℕ) (l : Limiter)
    → l.stopped ≡ false
    → is_positive rate ≡ false
    → (wait_n ((sets_rate rate ∷ [], false) ∷ schedule) n l).0 ≡ returned
wait_n_lifted rate schedule n l live lifted = wait_n-pause (sets_rate rate ∷ []) schedule n l (
    inr (
      wait_n-unlimited schedule (take_tokens n l.bucket l).0 _
        (set_rate_lifts n rate l live lifted)))

take_tokens-keeps :
    (n : ℕ) (l : Limiter)
    → ((take_tokens n l.bucket l).1.stopped ≡ l.stopped)
      × ((take_tokens n l.bucket l).1.bytes_per_second ≡ l.bytes_per_second)
unfolding take_tokens
take_tokens-keeps n l = (ground arith, ground arith)

-- A stopped limiter is inert: `Stop` again, a new rate and a tick leave it as it is.
pub stopped_inert :
    (rate : ℤ) (l : Limiter)
    → (stop (stop l) ≡ stop l) × (set_rate rate (stop l) ≡ stop l) × (tick (stop l) ≡ stop l)
unfolding stop set_rate tick
stopped_inert rate l = (refl, refl, ground arith)

-- What is left of a limiter after `Stop`: nothing refills it and no rate is set.
record IsStopped (rate : ℤ) (most : ℕ) (l : Limiter) : Type 0 where
  valid : IsLimiter l
  stopped : l.stopped ≡ true
  rate_kept : l.bytes_per_second ≡ rate
  few : pos_part l.bucket ≤ most

take_tokens-IsStopped :
    (rate : ℤ) (most n : ℕ) (l : Limiter)
    → IsStopped rate most l
    → IsStopped rate most (take_tokens n l.bucket l).1
take_tokens-IsStopped rate most n l v = record {
  valid = take_tokens-IsLimiter n l v.valid;
  stopped = (take_tokens-keeps n l).0 ∙ v.stopped;
  rate_kept = (take_tokens-keeps n l).1 ∙ v.rate_kept;
  few = omega (arith, (take_tokens_lem n l v.valid).0, (take_tokens_lem n l v.valid).1, v.few);
}

step-IsStopped :
    (rate : ℤ) (most : ℕ) (l : Limiter) (ev : Event)
    → IsStopped rate most l
    → IsStopped rate most (step l ev)
unfolding step tick stop set_rate
step-IsStopped rate most l ticks v = ground arith
step-IsStopped rate most l stops v = ground arith
step-IsStopped rate most l (sets_rate r) v = ground arith
step-IsStopped rate most l (takes n) v = take_tokens-IsStopped rate most n l v

steps-IsStopped :
    (rate : ℤ) (most : ℕ) (l : Limiter) (evs : List Event)
    → IsStopped rate most l
    → IsStopped rate most (steps l evs)
unfolding steps
steps-IsStopped rate most l [] v = v
steps-IsStopped rate most l (ev ∷ evs) v =
    steps-IsStopped rate most (step l ev) evs (step-IsStopped rate most l ev v)

-- A pause in which the context is not done.
abbrev pub IsPatient : List Event × Bool → Type 0
IsPatient p = p.1 ≡ false

left-pos :
    (rate : ℤ) (n : ℕ) (l : Limiter)
    → IsStopped rate (n - 1) l
    → 0 < n
    → 0 < (take_tokens n l.bucket l).0
left-pos rate n l v h =
    omega (arith, (take_tokens_lem n l v.valid).0, (take_tokens_lem n l v.valid).1, v.few)

emptied :
    (rate : ℤ) (n : ℕ) (l : Limiter)
    → IsStopped rate (n - 1) l
    → 0 < n
    → IsStopped rate ((take_tokens n l.bucket l).0 - 1) (take_tokens n l.bucket l).1
emptied rate n l v h =
    let w = take_tokens-IsStopped rate (n - 1) n l v in
    record {
      valid = w.valid;
      stopped = w.stopped;
      rate_kept = w.rate_kept;
      few = omega (arith, left-pos rate n l v h, (take_tokens_lem n l v.valid).1);
    }

starves :
    (rate : ℤ) (schedule : List (List Event × Bool)) (n : ℕ) (l : Limiter)
    → is_positive rate ≡ true
    → All IsPatient schedule
    → IsStopped rate (n - 1) l
    → 0 < n
    → (wait_n schedule n l).0 ≢ returned
unfolding wait_n
starves rate [] n l p patient v h =
    let limited : is_positive l.bytes_per_second ≡ true = ap is_positive v.rate_kept ∙ p in
    let more = left-pos rate n l v h in ground arith
starves rate ((evs, done) ∷ schedule) n l p patient v h =
    let (left, taken) = take_tokens n l.bucket l in
    let limited : is_positive l.bytes_per_second ≡ true = ap is_positive v.rate_kept ∙ p in
    let more = left-pos rate n l v h in
    let ih =
      starves rate schedule left (steps taken evs) p patient.1
        (steps-IsStopped rate (left - 1) taken evs (emptied rate n l v h)) more in
    let going : done ≡ false = patient.0 in ground arith

-- On a limiter within its bounds that was stopped at a positive rate, a waiter for more than the
-- bucket holds does not return, whatever happens meanwhile, while its context is not done.
pub wait_n_stopped :
    (schedule : List (List Event × Bool)) (n : ℕ) (l : Limiter)
    → IsLimiter l
    → l.stopped ≡ true
    → is_positive l.bytes_per_second ≡ true
    → pos_part l.bucket < n
    → All IsPatient schedule
    → (wait_n schedule n l).0 ≢ returned
wait_n_stopped schedule n l v stopped p few patient =
    starves l.bytes_per_second schedule n l p patient
      (record { valid = v; stopped = stopped; rate_kept = refl; few = omega arith }) (omega arith)
