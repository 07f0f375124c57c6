-- ===== src/Sync/Errors/Cap.antt =====
-- The cap on the errors that a log stores.
use nest_id_p.Base.Tests.{if-false, if-true}
use nest_id_p.Base.Rows.{append_assoc}
use nest_id_p.Base.Lists.{length-append}
use nest_id_p.Base.{
  ℕ, zero, suc, ◌≤◌, ◌<◌, ◌≡◌, inl, inr, refl, ap, Option, none, some, List, [], ◌∷◌, ◌++◌, arith,
  leb, length, take, Bool-cases, length-append, leb→le, append_assoc, if-false, if-true, ◌⊎◌,
  leb-false, le→leb, ◌∙◌,
}
use nest_id_p.Base.Eq.{nat_eq, string_eq}
use nest_id_p.Base.{List, Option, [], length, ◌≤◌, some, ◌≡◌, ◌<◌}
use nest_id_p.Sync.Errors.{
  ErrorEntry, cap_sync_errors, max_sync_errors, List, Option, entry, truncated, says,
  append_sync_error,
}

take-take_append :
    (n : ℕ) (xs ys : List ErrorEntry) → n ≤ length xs → take n (take n xs ++ ys) ≡ take n xs
take-take_append zero xs ys h = ground arith
take-take_append (suc n) [] ys h = ground arith
take-take_append (suc n) (x ∷ xs) ys h =
    ap (λ (r : List ErrorEntry). x ∷ r) (take-take_append n xs ys (omega arith))

length-take_within : (n : ℕ) (xs : List ErrorEntry) → n ≤ length xs → length (take n xs) ≡ n
length-take_within zero xs h = ground arith
length-take_within (suc n) [] h = ground (arith, h)
length-take_within (suc n) (x ∷ xs) h = omega (arith, length-take_within n xs (omega (arith, h)))

abbrev pub stored : Option (List ErrorEntry) → List ErrorEntry
stored none = []
stored (some errors) = errors

le-or-lt : (m n : ℕ) → (m ≤ n) ⊎ (n < m)
le-or-lt m n = elim (Bool-cases (leb m n)) [
  | inl h ↦ inl (leb→le m n h)
  | inr h ↦ inr (ground (arith, h))
]

-- What a log stores of too many errors.
abbrev pub cut : List ErrorEntry → List ErrorEntry
cut errors = take 99 errors ++ entry truncated (says "Additional errors truncated") ∷ []

cap_sync_errors-over :
    (errors : List ErrorEntry)
    → max_sync_errors < length errors
    → cap_sync_errors errors ≡ some (cut errors)
unfolding cap_sync_errors
cap_sync_errors-over [] h = ground (arith, h)
cap_sync_errors-over (e ∷ errors) h =
    if-false (leb (length (e ∷ errors)) max_sync_errors) _ _ (leb-false _ _ h)

cap_sync_errors-fits :
    (errors : List ErrorEntry)
    → length errors ≤ max_sync_errors
    → stored (cap_sync_errors errors) ≡ errors
unfolding cap_sync_errors
cap_sync_errors-fits [] h = refl
cap_sync_errors-fits (e ∷ errors) h =
    ap stored (if-true (leb (length (e ∷ errors)) max_sync_errors) _ _ (le→leb _ _ h))

length-cut :
    (errors : List ErrorEntry) → max_sync_errors < length errors → length (cut errors) ≡ 100
length-cut errors h = omega (
  arith,
  length-append (take 99 errors) (entry truncated (says "Additional errors truncated") ∷ []),
  length-take_within 99 errors (omega (arith, h)),
)

append_sync_error-cut :
    (errors : List ErrorEntry) (e : ErrorEntry)
    → max_sync_errors < length errors
    → append_sync_error (cut errors) e ≡ cut errors
unfolding append_sync_error
append_sync_error-cut errors e h =
    let note = entry truncated (says "Additional errors truncated") in
    let over : max_sync_errors < length (cut errors ++ e ∷ []) =
      omega (arith, length-append (cut errors) (e ∷ []), length-cut errors h) in
    rw (cap_sync_errors-over (cut errors ++ e ∷ []) over, append_sync_error)
      (ap (λ (l : List ErrorEntry). l ++ note ∷ [])
        (ap (take 99) (append_assoc (take 99 errors) (note ∷ []) (e ∷ []))
          ∙ take-take_append 99 errors (note ∷ e ∷ []) (omega (arith, h))))

-- A log stores at most 100 errors: all of them if there are no more than that, and otherwise the
-- first 99 with, as the last, the note that the others were cut. An error that is appended to what
-- was cut is not stored.
pub cap_sync_errors-bounded :
    (errors : List ErrorEntry)
    → (length (stored (cap_sync_errors errors)) ≤ max_sync_errors)
      × (length errors ≤ max_sync_errors → stored (cap_sync_errors errors) ≡ errors)
      × (max_sync_errors < length errors
          → stored (cap_sync_errors errors)
            ≡ take 99 errors ++ entry truncated (says "Additional errors truncated") ∷ [])
      × ((e : ErrorEntry)
          → max_sync_errors < length errors
          → append_sync_error (stored (cap_sync_errors errors)) e ≡ stored (cap_sync_errors errors))
cap_sync_errors-bounded errors = elim (le-or-lt (length errors) max_sync_errors) [
  | inl fits ↦ (
    rw (cap_sync_errors-fits errors fits) fits,
    λ h. cap_sync_errors-fits errors fits,
    λ h. ground (arith, fits, h),
    λ e h. ground (arith, fits, h),
  )
  | inr over ↦ (
    rw (cap_sync_errors-over errors over) (omega (arith, length-cut errors over)),
    λ h. ground (arith, over, h),
    λ h. rw (cap_sync_errors-over errors over) refl,
    λ e h. rw (cap_sync_errors-over errors over) (append_sync_error-cut errors e over),
  )
]
