-- ===== src/Limiter/Invariant.antt =====
-- What every operation of the sliding-window limiter keeps true.
use nest_id_p.Base.{
  ℕ, ◌≤◌, inl, inr, String, not, Option, none, some, [], ◌∷◌, arith, leb, Option-cases, Bool-cases,
}
use nest_id_p.Base.Eq.{string_eq}
use nest_id_p.Base.Maps.{
  Map, get, Distinct, Distinct-set, Distinct-delete, Distinct-retain, Entries, Entries-set,
  Entries-delete, Entries-retain, Entries-get,
}
use nest_id_p.Limiter.{
  Bucket, Limiter, fresh_limiter, check, check_bucket, maybe_prune, bump, record_hit, hit, reset,
  has_expired,
}

-- A bucket counts at least one hit, and its window has begun.
abbrev pub IsLive : ℕ → String → Bucket → Type 0
IsLive now key b = (1 ≤ b.count) × (b.window_start_ms ≤ now)

pub record IsValid (l : Limiter) (now : ℕ) : Type 0 where
  pub distinct : Distinct l.buckets
  pub live : Entries (IsLive now) l.buckets
  pub pruned : l.last_prune_ms ≤ now

IsLive-mono :
    (m : Map String Bucket) (now later : ℕ)
    → now ≤ later
    → Entries (IsLive now) m
    → Entries (IsLive later) m
IsLive-mono [] now later h v = tt
IsLive-mono ((k, b) ∷ m) now later h v =
    ((v.0.0, omega (arith, v.0.1)), IsLive-mono m now later h v.1)

pub IsValid-mono : (l : Limiter) (now later : ℕ) → now ≤ later → IsValid l now → IsValid l later
IsValid-mono l now later h v = record {
  distinct = v.distinct;
  live = IsLive-mono l.buckets now later h v.live;
  pruned = omega (arith, v.pruned);
}

pub fresh_limiter-IsValid : (now : ℕ) → IsValid fresh_limiter now
fresh_limiter-IsValid now = record { distinct = tt; live = tt; pruned = omega arith }

pub reset-IsValid :
    (l : Limiter) (key : String) (now : ℕ) → IsValid l now → IsValid (reset l key) now
unfolding reset
reset-IsValid l key now v = record {
  distinct = Distinct-delete key l.buckets v.distinct;
  live = Entries-delete (IsLive now) key l.buckets v.live;
  pruned = v.pruned;
}

check_bucket-IsValid :
    (l : Limiter) (key : String) (o : Option Bucket) (max window_ms now : ℕ)
    → IsValid l now
    → IsValid (check_bucket l key o max window_ms now).0 now
unfolding check_bucket reset
check_bucket-IsValid l key none max window_ms now v = v
check_bucket-IsValid l key (some b) max window_ms now v =
    elim (Bool-cases (has_expired b window_ms now)) [
      | inl old ↦ rw old (reset-IsValid l key now v)
      | inr young ↦ elim (Bool-cases (leb max b.count)) [
        | inl full ↦ rw (young, full) v
        | inr free ↦ rw (young, free) v
      ]
    ]

pub check-IsValid :
    (l : Limiter) (key : String) (max window_ms now : ℕ)
    → IsValid l now
    → IsValid (check l key max window_ms now).0 now
unfolding check
check-IsValid l key max window_ms now v =
    check_bucket-IsValid l key (get key l.buckets) max window_ms now v

pub maybe_prune-IsValid :
    (l : Limiter) (now window_ms : ℕ) → IsValid l now → IsValid (maybe_prune l now window_ms) now
unfolding maybe_prune
maybe_prune-IsValid l now window_ms v = ground (
  arith,
  Distinct-retain (λ (key : String) (b : Bucket). not (has_expired b window_ms now)) l.buckets
      v.distinct,
  Entries-retain (IsLive now) (λ (key : String) (b : Bucket). not (has_expired b window_ms now))
      l.buckets v.live,
)

bump-IsLive :
    (m : Map String Bucket) (key : String) (window_ms now : ℕ)
    → Entries (IsLive now) m
    → IsLive now key (bump (get key m) window_ms now)
unfolding bump
bump-IsLive m key window_ms now v = elim (Option-cases (get key m)) [
  | inl e ↦ rw (e, bump) (omega arith)
  | inr (b, e) ↦ rw (e, bump) (ground (arith, Entries-get (IsLive now) key b m v e))
]

pub record_hit-IsValid :
    (l : Limiter) (key : String) (window_ms now : ℕ)
    → IsValid l now
    → IsValid (record_hit l key window_ms now) now
unfolding record_hit
record_hit-IsValid l key window_ms now v =
    let p = maybe_prune l now window_ms in
    let w : IsValid p now = maybe_prune-IsValid l now window_ms v in
    record {
      distinct = Distinct-set key _ p.buckets w.distinct;
      live =
          Entries-set (IsLive now) key _ p.buckets w.live
            (bump-IsLive p.buckets key window_ms now w.live);
      pruned = w.pruned;
    }

-- A hit keeps the limiter valid, at the later of its two readings of the clock: the keys are
-- distinct, every bucket has a count of at least 1 and began in the past, and the last sweep was
-- in the past.
pub hit-IsValid :
    (l : Limiter) (key : String) (max window_ms counted_at tested_at : ℕ)
    → counted_at ≤ tested_at
    → IsValid l counted_at
    → IsValid (hit l key max window_ms counted_at tested_at).0 tested_at
unfolding hit
hit-IsValid l key max window_ms t u h v =
    check-IsValid (record_hit l key window_ms t) key max window_ms u
      (IsValid-mono _ t u h (record_hit-IsValid l key window_ms t v))
