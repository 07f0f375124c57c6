-- ===== src/Limiter/Isolation.antt =====
-- What one call of the sliding-window limiter does to the count of each key.
use nest_id_p.Base.{
  ℕ, ◌+◌, ◌≤◌, ◌<◌, ◌≡◌, ◌≢◌, refl, inl, inr, String, true, not, Option, none, some, arith, leb,
  if◌then◌else◌, Option-cases, leb-false, Bool-cases,
}
use nest_id_p.Base.Eq.{string_eq, ◌==◌, beq_refl, beq-false}
use nest_id_p.Base.Maps.{
  Distinct-delete, get, Distinct, get-set, get-delete, get-retain, filter_value,
}
use nest_id_p.Limiter.{
  Bucket, Limiter, has_expired, check, check_bucket, maybe_prune, bump, record_hit, current_count,
  live_count, reset,
}

filter-live_count :
    (o : Option Bucket) (window_ms w now u : ℕ)
    → w ≤ window_ms
    → now ≤ u
    → live_count (filter_value (λ b. not (has_expired b window_ms now)) o) w u ≡ live_count o w u
unfolding live_count
filter-live_count none window_ms w now u h t = refl
filter-live_count (some b) window_ms w now u h t = ground arith

-- A sweep by a window that is no shorter than the key's own forgets nothing of it.
maybe_prune-live_count :
    (l : Limiter) (j : String) (now window_ms w u : ℕ)
    → Distinct l.buckets
    → w ≤ window_ms
    → now ≤ u
    → live_count (get j (maybe_prune l now window_ms).buckets) w u
      ≡ live_count (get j l.buckets) w u
unfolding maybe_prune
maybe_prune-live_count l j now window_ms w u d h t = ground (
  arith,
  get-retain (λ (key : String) (b : Bucket). not (has_expired b window_ms now)) j l.buckets d,
  filter-live_count (get j l.buckets) window_ms w now u h t,
)

-- A hit of one key leaves every other key's count as it was, if the window that the hit is
-- counted in is no shorter than the other key's window.
pub current_count-record_hit_ne :
    (l : Limiter) (key j : String) (window_ms w now u : ℕ)
    → Distinct l.buckets
    → key ≢ j
    → w ≤ window_ms
    → now ≤ u
    → current_count (record_hit l key window_ms now) j w u ≡ current_count l j w u
unfolding current_count record_hit
current_count-record_hit_ne l key j window_ms w now u d ne h t =
    rw (get-set key j _ (maybe_prune l now window_ms).buckets, beq-false key j ne)
      (maybe_prune-live_count l j now window_ms w u d h t)

-- A bucket that is live at `now` is not swept.
get-maybe_prune_live :
    (l : Limiter) (key : String) (b : Bucket) (now window_ms : ℕ)
    → Distinct l.buckets
    → get key l.buckets ≡ some b
    → now < b.window_start_ms + window_ms
    → get key (maybe_prune l now window_ms).buckets ≡ some b
unfolding maybe_prune
get-maybe_prune_live l key b now window_ms d e h = ground (
  arith,
  get-retain (λ (key : String) (b : Bucket). not (has_expired b window_ms now)) key l.buckets d,
)

-- A hit in a live window counts one more and leaves the window's start.
pub get-record_hit_live :
    (l : Limiter) (key : String) (b : Bucket) (window_ms now : ℕ)
    → Distinct l.buckets
    → get key l.buckets ≡ some b
    → now < b.window_start_ms + window_ms
    → get key (record_hit l key window_ms now).buckets
      ≡ some (record { count = b.count + 1; window_start_ms = b.window_start_ms })
unfolding record_hit
get-record_hit_live l key b window_ms now d e h =
    rw
      (
        get-set key key _ (maybe_prune l now window_ms).buckets,
        beq_refl key,
        get-maybe_prune_live l key b now window_ms d e h,
        bump,
      )
      (ground arith)

-- A hit of another key leaves a live bucket alone, if its window is no shorter.
pub get-record_hit_ne :
    (l : Limiter) (key j : String) (b : Bucket) (window_ms now : ℕ)
    → Distinct l.buckets
    → key ≢ j
    → get j l.buckets ≡ some b
    → now < b.window_start_ms + window_ms
    → get j (record_hit l key window_ms now).buckets ≡ some b
unfolding record_hit
get-record_hit_ne l key j b window_ms now d ne e h =
    rw (get-set key j _ (maybe_prune l now window_ms).buckets, beq-false key j ne)
      (get-maybe_prune_live l j b now window_ms d e h)

-- The limit is met exactly when the live count has reached it.
pub check-limited :
    (l : Limiter) (key : String) (max window_ms now : ℕ)
    → 1 ≤ max
    → (check l key max window_ms now).1.limited ≡ leb max (current_count l key window_ms now)
unfolding check check_bucket current_count live_count
check-limited l key max window_ms now h = elim (Option-cases (get key l.buckets)) [
  | inl e ↦ rw (e, check_bucket, live_count) (ground arith)
  | inr (b, e) ↦ rw (e, check_bucket, live_count) (ground arith)
]

check_bucket-retry :
    (l : Limiter) (key : String) (o : Option Bucket) (max window_ms now t : ℕ)
    → (check_bucket l key o max window_ms now).1.limited ≡ true
    → now ≤ t
    → (check_bucket l key o max window_ms t).1.limited
      ≡ not (leb (now + (check_bucket l key o max window_ms now).1.retry_after_ms) t)
unfolding check_bucket
check_bucket-retry l key none max window_ms now t h k = ground arith
check_bucket-retry l key (some b) max window_ms now t h k = ground arith

-- Where the limit is met, `retryAfterMs` is the exact time until it no longer is: with no further
-- hit, a check at a later time is limited exactly while less than that time has passed.
pub check-retry_after :
    (l : Limiter) (key : String) (max window_ms now t : ℕ)
    → (check l key max window_ms now).1.limited ≡ true
    → now ≤ t
    → (check l key max window_ms t).1.limited
      ≡ not (leb (now + (check l key max window_ms now).1.retry_after_ms) t)
unfolding check
check-retry_after l key max window_ms now t h k =
    check_bucket-retry l key (get key l.buckets) max window_ms now t h k

check_bucket-live_count :
    (l : Limiter) (key j : String) (o : Option Bucket) (max window_ms now u : ℕ)
    → get key l.buckets ≡ o
    → now ≤ u
    → live_count (get j (check_bucket l key o max window_ms now).0.buckets) window_ms u
      ≡ live_count (get j l.buckets) window_ms u
unfolding check_bucket live_count
check_bucket-live_count l key j none max window_ms now u e h = refl
check_bucket-live_count l key j (some b) max window_ms now u e h =
    ground (arith, get-delete key j l.buckets, string_eq.beq_iff key j)

-- A check changes no count: it only forgets a window that is over.
pub current_count-check :
    (l : Limiter) (key j : String) (max window_ms now u : ℕ)
    → now ≤ u
    → current_count (check l key max window_ms now).0 j window_ms u ≡ current_count l j window_ms u
unfolding check current_count
current_count-check l key j max window_ms now u h =
    check_bucket-live_count l key j (get key l.buckets) max window_ms now u refl h

-- `reset` clears the count of its key and leaves every other.
pub current_count-reset :
    (l : Limiter) (key j : String) (window_ms now : ℕ)
    → current_count (reset l key) j window_ms now
      ≡ (if key == j then 0 else current_count l j window_ms now)
unfolding current_count reset live_count
current_count-reset l key j window_ms now = ground (arith, get-delete key j l.buckets)

check_bucket-get_ne :
    (l : Limiter) (key j : String) (o : Option Bucket) (max window_ms now : ℕ)
    → key ≢ j
    → get j (check_bucket l key o max window_ms now).0.buckets ≡ get j l.buckets
unfolding check_bucket
check_bucket-get_ne l key j none max window_ms now ne = refl
check_bucket-get_ne l key j (some b) max window_ms now ne =
    ground (arith, get-delete key j l.buckets, beq-false key j ne)

-- A check of one key leaves the bucket of every other.
pub get-check_ne :
    (l : Limiter) (key j : String) (max window_ms now : ℕ)
    → key ≢ j
    → get j (check l key max window_ms now).0.buckets ≡ get j l.buckets
unfolding check
get-check_ne l key j max window_ms now ne =
    check_bucket-get_ne l key j (get key l.buckets) max window_ms now ne

check_bucket-result :
    (l m : Limiter) (key : String) (o : Option Bucket) (max window_ms now : ℕ)
    → (check_bucket l key o max window_ms now).1 ≡ (check_bucket m key o max window_ms now).1
unfolding check_bucket
check_bucket-result l m key none max window_ms now = refl
check_bucket-result l m key (some b) max window_ms now = ground arith

-- So a check of one key does not change what a check of another answers.
pub check-check_ne :
    (l : Limiter) (key j : String) (max window_ms now most span_ms later : ℕ)
    → key ≢ j
    → (check (check l key max window_ms now).0 j most span_ms later).1
      ≡ (check l j most span_ms later).1
unfolding check
check-check_ne l key j max window_ms now most span_ms later ne =
    rw (check_bucket-get_ne l key j (get key l.buckets) max window_ms now ne)
      (check_bucket-result _ l j (get j l.buckets) most span_ms later)

-- A check of a key in its live window keeps the bucket.
pub get-check_live :
    (l : Limiter) (key : String) (b : Bucket) (max window_ms now : ℕ)
    → get key l.buckets ≡ some b
    → now < b.window_start_ms + window_ms
    → ((check l key max window_ms now).0 ≡ l)
      × ((check l key max window_ms now).1.limited ≡ leb max b.count)
unfolding check check_bucket
get-check_live l key b max window_ms now e h =
    rw (e, check_bucket, leb-false (b.window_start_ms + window_ms) now h) (ground arith)

pub check-Distinct :
    (l : Limiter) (key : String) (max window_ms now : ℕ)
    → Distinct l.buckets
    → Distinct (check l key max window_ms now).0.buckets
unfolding check
check-Distinct l key max window_ms now d = elim (Option-cases (get key l.buckets)) [
  | inl e ↦ rw (e, check, check_bucket) d
  | inr (b, e) ↦ elim (Bool-cases (has_expired b window_ms now)) [
    | inl old ↦ rw (e, check_bucket, old) (Distinct-delete key l.buckets d)
    | inr young ↦ elim (Bool-cases (leb max b.count)) [
      | inl full ↦ rw (e, check_bucket, young, full) d
      | inr free ↦ rw (e, check_bucket, young, free) d
    ]
  ]
]
