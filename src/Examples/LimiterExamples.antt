-- ===== src/Examples/LimiterExamples.antt =====
-- The sliding-window limiter and the CIDR ranges on concrete inputs.
use nest_id_p.Base.{
  ℕ, ◌+◌, ◌≤◌, ◌<◌, ◌≡◌, ◌≢◌, ◌↔◌, refl, String, true, false, Option, none, some, [], ◌∷◌, ◌++◌,
  arith, ◌*◌, ◌-◌, ◌^◌,
}
use nest_id_p.Base.Eq.{string_eq}
use nest_id_p.Base.Maps.{get, set, retain}
use nest_id_p.Base.Text.{Text, codes, split, decimal_from, trim}
use text.Mathlib.TextEquality.{eq_iff}
use nest_id_p.Limiter.{maybe_prune, Limiter, fresh_limiter, check, record_hit, current_count, hit}
use nest_id_p.Limiter.Invariant.{fresh_limiter-IsValid, IsValid, hit-IsValid}
use nest_id_p.Limiter.Counting.{run, check-limited-run, record_hit-forgets}
use nest_id_p.Limiter.Isolation.{check-retry_after}
use nest_id_p.Cidr.{
  ip_in_cidr, ipv4_to_int, masked, ip_matches_cidr_list, unbracket, ipv6_to_int, in_range, number,
}
use nest_id_p.Cidr.Ranges.{ip_in_cidr-ipv4, ip_in_cidr-empty_prefix}
use nest_id_p.Cidr.Octets.{ipv4_to_int-dotted, dotted}

abbrev one_hit : Limiter
one_hit = record {
  buckets = ("a", record { count = 1; window_start_ms = 100_000 }) ∷ [];
  last_prune_ms = 0;
}

a_not_b : ◌≢◌ {A = String} "b" "a"
a_not_b = ground (arith, eq_iff "b" "a")

two_hits :
    (check (record_hit (record_hit fresh_limiter "a" 900 5) "a" 900 6) "a" 2 900 7).1
    ≡ record { limited = true; retry_after_ms = 898 }
unfolding check record_hit get set maybe_prune retain
two_hits = refl

check-limited-run_example :
    (check
      (run (record_hit fresh_limiter "a" 900 5) (
        record { key = "a"; window_ms = 900; at = 6 }
        ∷ record { key = "b"; window_ms = 900; at = 7 }
        ∷ []))
      "a"
      2
      900
      8).1.limited
    ≡ true
unfolding current_count get
check-limited-run_example =
    check-limited-run fresh_limiter "a" 2 900 5 8
      (record { key = "a"; window_ms = 900; at = 6 }
        ∷ record { key = "b"; window_ms = 900; at = 7 }
        ∷ [])
      (omega arith) (fresh_limiter-IsValid 5) refl
      ((omega arith, omega arith, λ e. refl), ((omega arith, omega arith, λ e. refl), tt))
      (omega arith)

check-retry_after_example : (check one_hit "a" 1 900_000 500_000).1.limited ≡ true
unfolding check get
check-retry_after_example =
    check-retry_after one_hit "a" 1 900_000 200_000 500_000 refl (omega arith)

record_hit-forgets_example :
    (current_count one_hit "a" 900_000 170_000 ≡ 1)
    × (current_count (record_hit one_hit "b" 60_000 170_000) "a" 900_000 170_000 ≡ 0)
unfolding get
record_hit-forgets_example =
    record_hit-forgets one_hit "a" "b" (record { count = 1; window_start_ms = 100_000 }) 900_000
      60_000 170_000 (refl, tt) refl a_not_b (omega arith) (omega arith) (omega arith)

hit-IsValid_example : IsValid (hit fresh_limiter "a" 3 900 5 6).0 6
hit-IsValid_example =
    hit-IsValid fresh_limiter "a" 3 900 5 6 (omega arith) (fresh_limiter-IsValid 5)

abbrev private_net : Text
private_net = codes "10.0.0.0"

abbrev no_number : Text → Option ℕ
no_number s = none

network_test :
    (ip_matches_cidr_list no_number (codes "10.200.3.4") (codes "10.0.0.0/8" ∷ []) ≡ true)
    × (ip_matches_cidr_list no_number (codes "11.0.0.1") (codes "10.0.0.0/8" ∷ []) ≡ false)
    × (ip_matches_cidr_list no_number (codes "fd00::12") (codes "[::1]" ∷ codes "fd00::/8" ∷ [])
        ≡ true)
    × (ip_matches_cidr_list no_number (codes "[::1]") (codes "::1" ∷ []) ≡ true)
unfolding ip_matches_cidr_list unbracket trim ip_in_cidr ipv4_to_int ipv6_to_int in_range masked
    split decimal_from
network_test = (refl, refl, refl, refl)

ip_in_cidr-ipv4_example :
    (ip_in_cidr no_number (codes "10.1.2.3") (codes "10.0.0.0" ++ b'/' ∷ codes "8") ≡ true) ↔ (
      (masked (32 - 8) 167772160 ≤ 167838211)
      × (167838211 < masked (32 - 8) 167772160 + 2 ^ (32 - 8)))
unfolding ipv4_to_int split decimal_from number
ip_in_cidr-ipv4_example =
    ip_in_cidr-ipv4 no_number (codes "10.1.2.3") (codes "10.0.0.0") (codes "8") 167838211 167772160
      8 refl refl refl refl (omega arith)

ip_in_cidr-empty_prefix_example :
    ip_in_cidr no_number (codes "203.0.113.9") (codes "10.0.0.0" ++ b'/' ∷ []) ≡ true
unfolding ipv4_to_int split decimal_from
ip_in_cidr-empty_prefix_example =
    ip_in_cidr-empty_prefix no_number (codes "203.0.113.9") (codes "10.0.0.0") 3405803785 167772160
      refl refl

ipv4_to_int-dotted_example :
    ipv4_to_int (dotted 192 168 0 7) ≡ some (((192 * 256 + 168) * 256 + 0) * 256 + 7)
ipv4_to_int-dotted_example =
    ipv4_to_int-dotted 192 168 0 7 (omega arith) (omega arith) (omega arith) (omega arith)
