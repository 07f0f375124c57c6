-- ===== src/Limiter/Counting.antt =====
-- The limiter over a history of hits of many keys, against the number of hits of one key.
use nest_id_p.Base.{
  ℕ, ◌+◌, ◌≤◌, ◌<◌, ◌≡◌, refl, ◌∙◌, ap, inl, inr, String, not, Option, none, some, List, [], ◌∷◌,
  arith, ltb, if◌then◌else◌, Bool-cases, All, ◌≢◌, leb, ltb-false, suc, Option-cases,
}
use nest_id_p.Base.Eq.{nat_eq, string_eq, ◌==◌, beq_refl, beq-false}
use nest_id_p.Base.Maps.{
  get, Distinct, Distinct-set, Distinct-retain, get-set, get-retain, Entries-get,
}
use nest_id_p.Limiter.{
  Bucket, Limiter, has_expired, maybe_prune, bump, record_hit, current_count, live_count,
  prune_interval_ms, check,
}
use nest_id_p.Limiter.Invariant.{IsValid, IsLive, maybe_prune-IsValid}
use nest_id_p.Limiter.Isolation.{get-record_hit_live, get-record_hit_ne, check-limited}

-- A call of `record`: the key, the window that the caller passes, and the clock.
pub record Hit : Type 0 where
  pub key : String
  pub window_ms : ℕ
  pub at : ℕ

pub run : Limiter → List Hit → Limiter
run l [] = l
run l (h ∷ hs) = run (record_hit l h.key h.window_ms h.at) hs

abbrev pub occurrences : String → List Hit → ℕ
occurrences key [] = 0
occurrences key (h ∷ hs) = (if h.key == key then 1 else 0) + occurrences key hs

-- A hit falls within the window that began at `start`; its own key's window is `window_ms`, and
-- no other key is counted in a shorter one.
abbrev pub Within : String → ℕ → ℕ → Hit → Type 0
Within key start window_ms h =
    (h.at < start + window_ms) × (window_ms ≤ h.window_ms) × (h.key ≡ key → h.window_ms ≡ window_ms)

-- The first hit opens a window.
live_bump :
    (l : Limiter) (key : String) (o : Option Bucket) (window_ms now : ℕ)
    → IsValid l now
    → get key l.buckets ≡ o
    → live_count o window_ms now ≡ 0
    → bump o window_ms now ≡ record { count = 1; window_start_ms = now }
unfolding bump live_count
live_bump l key none window_ms now v e h = refl
live_bump l key (some b) window_ms now v e h =
    ground (arith, Entries-get (IsLive now) key b l.buckets v.live e)

live_count-pruned :
    (l : Limiter) (key : String) (now window_ms : ℕ)
    → IsValid l now
    → live_count (get key l.buckets) window_ms now ≡ 0
    → live_count (get key (maybe_prune l now window_ms).buckets) window_ms now ≡ 0
unfolding maybe_prune live_count
live_count-pruned l key now window_ms v h = ground (
  arith,
  get-retain (λ (k : String) (b : Bucket). not (has_expired b window_ms now)) key l.buckets
      v.distinct,
)

pub get-record_hit_fresh :
    (l : Limiter) (key : String) (window_ms now : ℕ)
    → IsValid l now
    → current_count l key window_ms now ≡ 0
    → get key (record_hit l key window_ms now).buckets
      ≡ some (record { count = 1; window_start_ms = now })
unfolding record_hit current_count
get-record_hit_fresh l key window_ms now v h =
    let p = maybe_prune l now window_ms in
    rw (get-set key key _ p.buckets, beq_refl key)
      (ap some (
        live_bump p key (get key p.buckets) window_ms now (maybe_prune-IsValid l now window_ms v)
          refl (live_count-pruned l key now window_ms v h)))

pub record_hit-Distinct :
    (l : Limiter) (key : String) (window_ms now : ℕ)
    → Distinct l.buckets
    → Distinct (record_hit l key window_ms now).buckets
unfolding record_hit maybe_prune
record_hit-Distinct l key window_ms now d =
    elim (Bool-cases (ltb now (l.last_prune_ms + prune_interval_ms))) [
      | inl young ↦ rw (young, record_hit, maybe_prune) (Distinct-set key _ l.buckets d)
      | inr due ↦
          rw (due, record_hit, maybe_prune)
            (Distinct-set key _ _
              (Distinct-retain (λ k b. not (has_expired b window_ms now)) l.buckets d))
    ]

get-run :
    (l : Limiter) (key : String) (b : Bucket) (window_ms : ℕ) (hs : List Hit)
    → Distinct l.buckets
    → get key l.buckets ≡ some b
    → All (Within key b.window_start_ms window_ms) hs
    → get key (run l hs).buckets
      ≡ some (record { count = b.count + occurrences key hs; window_start_ms = b.window_start_ms })
unfolding run
get-run l key b window_ms [] d e a = ground arith
get-run l key b window_ms (h ∷ hs) d e ((early, long, same), a) = elim (Bool-cases (h.key == key)) [
  | inl hit ↦
      let k : h.key ≡ key = (string_eq.beq_iff h.key key).0 hit in
      let stepped =
        get-run (record_hit l h.key h.window_ms h.at) key
          (record { count = b.count + 1; window_start_ms = b.window_start_ms }) window_ms hs
          (record_hit-Distinct l h.key h.window_ms h.at d)
          (rw k (get-record_hit_live l key b h.window_ms h.at d e (rw (same k) early))) a in
      stepped ∙ ground arith
  | inr miss ↦
      get-run (record_hit l h.key h.window_ms h.at) key b window_ms hs
        (record_hit-Distinct l h.key h.window_ms h.at d)
        (get-record_hit_ne l h.key key b h.window_ms h.at d
          (λ k. cc (miss, (string_eq.beq_iff h.key key).1 k)) e (omega arith))
        a
      ∙ ground arith
]

-- Exact counting: after a hit at `start` on a key whose count was 0, and any further hits of any
-- keys that fall within the window so opened, none of them counted in a shorter window and those
-- of the key itself in the same one, the count of the key at a time within that window is 1 plus
-- the number of its further hits.
pub current_count-run :
    (l : Limiter) (key : String) (window_ms start now : ℕ) (hs : List Hit)
    → IsValid l start
    → current_count l key window_ms start ≡ 0
    → All (Within key start window_ms) hs
    → now < start + window_ms
    → current_count (run (record_hit l key window_ms start) hs) key window_ms now
      ≡ 1 + occurrences key hs
unfolding current_count live_count
current_count-run l key window_ms start now hs v zero_hits a t =
    rw
      (get-run (record_hit l key window_ms start) key
        (record { count = 1; window_start_ms = start }) window_ms hs
        (record_hit-Distinct l key window_ms start v.distinct)
        (get-record_hit_fresh l key window_ms start v zero_hits) a)
      (ground arith)

-- After a hit that opens the window of a key, and further hits of any keys before it ends, those of
-- the key counted in the same window length and the others in no shorter one, the limiter refuses
-- the key until then exactly when the hits of the key have reached the limit, which is at least 1.
pub check-limited-run :
    (l : Limiter) (key : String) (max window_ms start now : ℕ) (hs : List Hit)
    → 1 ≤ max
    → IsValid l start
    → current_count l key window_ms start ≡ 0
    → All (Within key start window_ms) hs
    → now < start + window_ms
    → (check (run (record_hit l key window_ms start) hs) key max window_ms now).1.limited
      ≡ leb max (1 + occurrences key hs)
check-limited-run l key max window_ms start now hs m v zero_hits a t =
    check-limited (run (record_hit l key window_ms start) hs) key max window_ms now m
    ∙ ap (leb max) (current_count-run l key window_ms start now hs v zero_hits a t)

-- When a sweep is due, one hit of another key with a shorter window, which is over for the bucket,
-- erases the count of a window that is still open.
pub record_hit-forgets :
    (l : Limiter) (key other : String) (b : Bucket) (window_ms shorter_ms now : ℕ)
    → Distinct l.buckets
    → get key l.buckets ≡ some b
    → other ≢ key
    → now < b.window_start_ms + window_ms
    → b.window_start_ms + shorter_ms ≤ now
    → l.last_prune_ms + prune_interval_ms ≤ now
    → (current_count l key window_ms now ≡ b.count)
      × (current_count (record_hit l other shorter_ms now) key window_ms now ≡ 0)
unfolding current_count live_count record_hit maybe_prune
record_hit-forgets l key other b window_ms shorter_ms now d e ne open_until over due = (
  rw e (ground arith),
  rw
      (
        get-set other key _ _,
        beq-false other key ne,
        ltb-false now _ due,
        get-retain (λ k b. not (has_expired b shorter_ms now)) key l.buckets d,
        e,
      )
      (ground arith),
)

-- One more hit of a key raises its live count by one.
pub current_count-record_hit_self :
    (l : Limiter) (key : String) (window_ms now : ℕ)
    → IsValid l now
    → 0 < window_ms
    → current_count (record_hit l key window_ms now) key window_ms now
      ≡ suc (current_count l key window_ms now)
unfolding current_count live_count
current_count-record_hit_self l key window_ms now v w =
    elim (Bool-cases (current_count l key window_ms now == 0)) [
      | inl idle ↦
          let none_before : current_count l key window_ms now ≡ 0 = ground arith in
          rw (get-record_hit_fresh l key window_ms now v none_before) (ground arith)
      | inr busy ↦ elim (Option-cases (get key l.buckets)) [
        | inl e ↦ absurd (let z = rw (e, current_count, live_count) at busy in ground arith)
        | inr (b, e) ↦
            let open_until : now < b.window_start_ms + window_ms =
              (let z = rw (e, current_count, live_count) at busy in ground arith) in
            rw (get-record_hit_live l key b window_ms now v.distinct e open_until, e) (ground arith)
      ]
    ]
