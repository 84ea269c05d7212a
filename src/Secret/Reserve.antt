-- ===== src/Secret/Reserve.antt =====
-- Growing the arrays: ext_reserve_locked and ext_metrics_reserve_locked of
-- net/net-tcp-rpc-ext-server.c. `none` is the result -1, with the state as it was.
pub mod Laws
use mtprotor.Base.{
  not, ◌&&◌, ◌^◌, ℕ, zero, suc, ◌+◌, ◌-◌, ◌*◌, ◌≤◌, ◌<◌, ◌≡◌, refl, Bool, true, false, Option, none,
  some, List, [], ◌++◌, arith, ltb, leb, ◌==◌, if◌then◌else◌, length, replicate,
}
use mtprotor.Secret.State.{Store, Env, Metric, zero_metric}

-- `while (new_cap < limit) new_cap *= 2;` with fuel.
unfoldable pub double_below : ℕ → ℕ → ℕ → ℕ
double_below zero cap limit = cap
double_below (suc fuel) cap limit = elim (ltb cap limit) [
  | true ↦ double_below fuel (cap * 2) limit
  | false ↦ cap
]

-- The loop ends by its test: `limit` rounds are enough for a positive start.
pub double_below-ge :
    (fuel cap limit : ℕ) → 0 < cap → limit ≤ fuel + cap → limit ≤ double_below fuel cap limit
unfolding double_below
double_below-ge zero cap limit p h = omega arith
double_below-ge (suc fuel) cap limit p h = ground (arith, double_below-ge fuel (cap * 2) limit)

pub double_below_mono : (fuel cap limit : ℕ) → cap ≤ double_below fuel cap limit
unfolding double_below
double_below_mono zero cap limit = omega arith
double_below_mono (suc fuel) cap limit = ground (arith, double_below_mono fuel (cap * 2) limit)

unfoldable pub reserve : Env → ℕ → Store → Option Store
reserve env want s =
    if leb want s.cap
    then some s
    else if env.realloc_ok
    then some (record s { cap = double_below want (if s.cap == 0 then 64 else s.cap * 2) want })
    else none

-- `new_cap` of the counters: the loop's test is `new_cap <= want_id`.
unfoldable pub metrics_cap_for : ℕ → List Metric → ℕ
metrics_cap_for want_id metrics =
    double_below (want_id + 1) (if length metrics == 0 then 64 else length metrics) (want_id + 1)

-- Whether the doubling of `new_cap`, an int in the source, goes beyond 2^31 - 1. The loop then does not
-- end: with wrap-around it comes to 0.
unfoldable pub cap_overflows : ℕ → List Metric → Bool
cap_overflows want_id metrics =
    not (ltb want_id (length metrics)) && leb (2 ^ 31) (metrics_cap_for want_id metrics)

-- The result where the doubling does not overflow: reading the state file, which takes ids from
-- outside, tests `cap_overflows` first. calloc gives zeros, and the old counters are copied in front.
unfoldable pub metrics_reserve : Env → ℕ → Store → Option Store
metrics_reserve env want_id s =
    if ltb want_id (length s.metrics)
    then some s
    else if env.calloc_ok
    then some (record s {
      metrics =
          s.metrics ++ replicate (metrics_cap_for want_id s.metrics - length s.metrics) zero_metric;
    })
    else none
