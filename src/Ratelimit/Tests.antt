-- ===== src/Ratelimit/Tests.antt =====
-- Each theorem on the limiter at a concrete one: thirty bytes a second.
use gbf_core.Base.{◌^◌, ◌<◌, ◌≡◌, refl, Bool, true, false, List, inr, [], ◌∷◌, replicate, arith}
use gbf_core.Base.Int64.{pos, neg_part}
use gbf_core.Ratelimit.{
  Limiter, new_limiter, ticks, stops, sets_rate, takes, steps, wait_n, returned,
}
use gbf_core.Ratelimit.Bucket.{IsLimiter, IsLive, steps-IsLimiter}
use gbf_core.Ratelimit.Waiting.{pauses, wait_n_served}
use gbf_core.Ratelimit.Overflow.{bucket_negative}

abbrev limiter : Limiter
limiter = record {
  bytes_per_second = pos 33;
  bucket = pos 5;
  frac_accum = 8;
  max_bucket = pos 66;
  running = true;
  stopped = false;
}

limiter-IsLimiter : IsLimiter limiter
limiter-IsLimiter = record {
  bucket_nonneg = refl;
  cap_nonneg = refl;
  bucket_le = omega arith;
  cap_le = omega arith;
  frac_lt = omega arith;
  rate_le = omega arith;
  limited = inr (refl, refl);
}

limiter-IsLive : IsLive limiter
limiter-IsLive = record { valid = limiter-IsLimiter; ticking = refl; live = refl; positive = refl }

abbrev stopped_limiter : Limiter
stopped_limiter = record limiter { stopped = true }

stopped_limiter-IsLimiter : IsLimiter stopped_limiter
stopped_limiter-IsLimiter = record {
  bucket_nonneg = refl;
  cap_nonneg = refl;
  bucket_le = omega arith;
  cap_le = omega arith;
  frac_lt = omega arith;
  rate_le = omega arith;
  limited = inr (refl, refl);
}

steps-IsLimiter_example :
    IsLimiter (steps limiter (ticks ∷ takes 7 ∷ sets_rate (pos 20) ∷ stops ∷ []))
steps-IsLimiter_example =
    steps-IsLimiter limiter (ticks ∷ takes 7 ∷ sets_rate (pos 20) ∷ stops ∷ [])
      (tt, (tt, (omega arith, (tt, tt)))) limiter-IsLimiter

-- Pauses with ten ticks in all.
abbrev some_pauses : List Bool
some_pauses =
    false ∷ true ∷ true ∷ false ∷ true ∷ true ∷ true ∷ true ∷ true ∷ true ∷ true ∷ true ∷ []

wait_n_served_example : (wait_n (pauses some_pauses) 1 limiter).0 ≡ returned
wait_n_served_example = wait_n_served some_pauses 1 limiter limiter-IsLive (omega arith)

bucket_negative_example :
    (0 < neg_part (new_limiter (pos (2 ^ 62))).max_bucket)
    × (0 < neg_part (steps (new_limiter (pos (2 ^ 62))) (replicate 2 ticks)).bucket)
bucket_negative_example = bucket_negative (2 ^ 62) 1 (omega arith) (omega arith)
