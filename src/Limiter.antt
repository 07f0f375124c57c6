-- ===== src/Limiter.antt =====
-- apps/api/src/common/rate-limit/sliding-window-rate-limiter.ts: the sliding-window counters that
-- back the login throttle and the count of trips before an address is banned. Each call takes the
-- reading of the clock as an argument (`hit` reads it twice); times and windows are in
-- milliseconds. `now - start >= window` is written `start + window ≤ now`, so that nothing is
-- truncated where the clock went back.
pub mod Invariant
pub mod Counting
pub mod Isolation
use nest_id_p.Base.{
  ℕ, ◌+◌, ◌-◌, String, Bool, true, false, not, Option, none, some, [], leb, ltb, if◌then◌else◌,
  length,
}
use nest_id_p.Base.Eq.{string_eq}
use nest_id_p.Base.Maps.{Map, get, set, delete, retain}

pub record SlidingWindowResult : Type 0 where
  pub limited : Bool
  pub retry_after_ms : ℕ

pub record Bucket : Type 0 where
  pub count : ℕ
  pub window_start_ms : ℕ

pub record Limiter : Type 0 where
  pub buckets : Map String Bucket
  pub last_prune_ms : ℕ

abbrev pub not_limited : SlidingWindowResult
not_limited = record { limited = false; retry_after_ms = 0 }

abbrev pub prune_interval_ms : ℕ
prune_interval_ms = 60_000

abbrev pub fresh_limiter : Limiter
fresh_limiter = record { buckets = []; last_prune_ms = 0 }

-- `now - bucket.windowStartMs >= windowMs`.
abbrev pub has_expired : Bucket → ℕ → ℕ → Bool
has_expired b window_ms now = leb (b.window_start_ms + window_ms) now

-- The part of `check` after the bucket is read.
check_bucket : Limiter → String → Option Bucket → ℕ → ℕ → ℕ → Limiter × SlidingWindowResult
check_bucket l key none max window_ms now = (l, not_limited)
check_bucket l key (some b) max window_ms now =
    if has_expired b window_ms now
    then (record l { buckets = delete key l.buckets }, not_limited)
    else if leb max b.count
    then (l, record { limited = true; retry_after_ms = b.window_start_ms + window_ms - now })
    else (l, not_limited)

unfoldable pub check : Limiter → String → ℕ → ℕ → ℕ → Limiter × SlidingWindowResult
unfolding check_bucket
check l key max window_ms now = check_bucket l key (get key l.buckets) max window_ms now

unfoldable pub maybe_prune : Limiter → ℕ → ℕ → Limiter
maybe_prune l now window_ms = if ltb now (l.last_prune_ms + prune_interval_ms) then l else record {
  buckets = retain (λ key b. not (has_expired b window_ms now)) l.buckets;
  last_prune_ms = now;
}

-- The bucket that `record` stores: a fresh window, or one more in the live one.
bump : Option Bucket → ℕ → ℕ → Bucket
bump none window_ms now = record { count = 1; window_start_ms = now }
bump (some b) window_ms now =
    if has_expired b window_ms now
    then record { count = 1; window_start_ms = now }
    else record b { count = b.count + 1 }

-- `record` in the source.
unfoldable pub record_hit : Limiter → String → ℕ → ℕ → Limiter
unfolding bump
record_hit l key window_ms now =
    let pruned = maybe_prune l now window_ms in
    record pruned { buckets = set key (bump (get key pruned.buckets) window_ms now) pruned.buckets }

-- The clock is read once for the count and once for the test.
unfoldable pub hit : Limiter → String → ℕ → ℕ → ℕ → ℕ → Limiter × SlidingWindowResult
hit l key max window_ms counted_at tested_at =
    check (record_hit l key window_ms counted_at) key max window_ms tested_at

live_count : Option Bucket → ℕ → ℕ → ℕ
live_count none window_ms now = 0
live_count (some b) window_ms now = if has_expired b window_ms now then 0 else b.count

unfoldable pub current_count : Limiter → String → ℕ → ℕ → ℕ
unfolding live_count
current_count l key window_ms now = live_count (get key l.buckets) window_ms now

unfoldable pub reset : Limiter → String → Limiter
reset l key = record l { buckets = delete key l.buckets }

pub clear : Limiter → Limiter
clear l = record l { buckets = [] }

unfoldable pub size : Limiter → ℕ
size l = length l.buckets
