-- ===== src/Base/Rows.antt =====
-- Rows of a table: how many pass a test, and what an update of one row does to that.
use Prim.Native.Nat.{ℕ, ◌+◌, ◌≤◌}
use mathlib.Core.Path.{◌≡◌, refl, ap}
use mathlib.Core.Bool.{Bool, true, false}
use mathlib.Core.Option.{none, some}
use mathlib.Core.List.{List, [], ◌∷◌, ◌++◌}
use native.Mathlib.Omega.{arith}
use nest_id_p.Base.Tests.{if◌then◌else◌}
use nest_id_p.Base.Lists.{length, keep, find, update_where, any}

-- One, or nothing.
abbrev pub one_if : Bool → ℕ
one_if true = 1
one_if false = 0

module _ {ℓ} {A : Type ℓ} where
  -- An update through a unique key: the first row is the only one.
  unfoldable pub update_first : (A → Bool) → (A → A) → List A → List A
  update_first test change [] = []
  update_first test change (x ∷ xs) =
      let rest = update_first test change xs in if test x then change x ∷ xs else x ∷ rest

  -- `SELECT COUNT(*)`.
  unfoldable pub count : (A → Bool) → List A → ℕ
  count test [] = 0
  count test (x ∷ xs) = one_if (test x) + count test xs

  pub length-keep : (test : A → Bool) (xs : List A) → length (keep test xs) ≡ count test xs
  unfolding count
  length-keep test [] = refl
  length-keep test (x ∷ xs) = ground (arith, length-keep test xs)

  pub find-passes : (test : A → Bool) (xs : List A) (x : A) → find test xs ≡ some x → test x ≡ true
  unfolding find
  find-passes test (y ∷ xs) x h = ground (arith, find-passes test xs x)
  find-passes test [] x h = ground (arith, h)

  pub count-none : (test : A → Bool) (xs : List A) → find test xs ≡ none → count test xs ≡ 0
  unfolding find count
  count-none test [] h = refl
  count-none test (x ∷ xs) h = ground (arith, count-none test xs)

  pub count-zero : (test : A → Bool) (xs : List A) → count test xs ≡ 0 → find test xs ≡ none
  unfolding find count
  count-zero test [] h = refl
  count-zero test (x ∷ xs) h = ground (arith, count-zero test xs)

  pub any-none : (test : A → Bool) (xs : List A) → any test xs ≡ false → count test xs ≡ 0
  unfolding any count
  any-none test [] h = refl
  any-none test (x ∷ xs) h = ground (arith, any-none test xs)

  count-found :
      (test : A → Bool) (other : A → Bool) (xs : List A) (x : A)
      → find other xs ≡ some x
      → test x ≡ true
      → 1 ≤ count test xs
  unfolding find count
  count-found test other [] x h t = ground (arith, h)
  count-found test other (y ∷ xs) x h t = ground (arith, count-found test other xs x)

  -- Where at most one row passes a test, a row that passes it is the one that is found.
  pub find_unique :
      (test : A → Bool) (other : A → Bool) (xs : List A) (x : A)
      → count test xs ≤ 1
      → find other xs ≡ some x
      → test x ≡ true
      → find test xs ≡ some x
  unfolding find count
  find_unique test other [] x le h t = ground (arith, h)
  find_unique test other (y ∷ xs) x le h t =
      ground (arith, find_unique test other xs x, count-found test other xs x)

  -- The update of the row that is found moves the count by what the row itself counts.
  pub count-update_first :
      (p test : A → Bool) (change : A → A) (xs : List A) (x : A)
      → find test xs ≡ some x
      → count p (update_first test change xs) + one_if (p x) ≡ count p xs + one_if (p (change x))
  unfolding find count update_first
  count-update_first p test change [] x h = ground (arith, h)
  count-update_first p test change (y ∷ xs) x h =
      ground (arith, count-update_first p test change xs x)

  pub count-update_where :
      (p test : A → Bool) (change : A → A) (xs : List A)
      → ((x : A) → p (change x) ≡ p x)
      → count p (update_where test change xs) ≡ count p xs
  unfolding count update_where
  count-update_where p test change [] same = refl
  count-update_where p test change (x ∷ xs) same =
      ground (arith, same x, count-update_where p test change xs same)

  pub count-keep-le : (p test : A → Bool) (xs : List A) → count p (keep test xs) ≤ count p xs
  unfolding count
  count-keep-le p test [] = omega arith
  count-keep-le p test (x ∷ xs) = ground (arith, count-keep-le p test xs)

  -- What is kept does not see the update of a row that is not kept before or after.
  pub keep-update_first :
      (p test : A → Bool) (change : A → A) (xs : List A) (x : A)
      → find test xs ≡ some x
      → p x ≡ false
      → p (change x) ≡ false
      → keep p (update_first test change xs) ≡ keep p xs
  unfolding find update_first
  keep-update_first p test change [] x h before after = refl
  keep-update_first p test change (y ∷ xs) x h before after =
      ground (arith, keep-update_first p test change xs x)

  pub keep-update_where :
      (p test : A → Bool) (change : A → A) (xs : List A)
      → ((x : A) → test x ≡ true → (p x ≡ false) × (p (change x) ≡ false))
      → keep p (update_where test change xs) ≡ keep p xs
  unfolding update_where
  keep-update_where p test change [] hidden = refl
  keep-update_where p test change (x ∷ xs) hidden =
      ground (arith, hidden x, keep-update_where p test change xs hidden)

  pub keep-keep :
      (p test : A → Bool) (xs : List A)
      → ((x : A) → p x ≡ true → test x ≡ true)
      → keep p (keep test xs) ≡ keep p xs
  keep-keep p test [] kept = refl
  keep-keep p test (x ∷ xs) kept = ground (arith, kept x, keep-keep p test xs kept)

  -- A test that no row passes fails on a row that another test finds.
  pub none-passes :
      (test other : A → Bool) (xs : List A) (x : A)
      → find test xs ≡ none
      → find other xs ≡ some x
      → test x ≡ false
  unfolding find
  none-passes test other [] x h e = ground (arith, e)
  none-passes test other (y ∷ xs) x h e = ground (arith, none-passes test other xs x)

  pub count-append :
      (test : A → Bool) (xs ys : List A) → count test (xs ++ ys) ≡ count test xs + count test ys
  unfolding count
  count-append test [] ys = omega arith
  count-append test (x ∷ xs) ys = omega (arith, count-append test xs ys)

  pub keep-append :
      (test : A → Bool) (xs ys : List A) → keep test (xs ++ ys) ≡ keep test xs ++ keep test ys
  keep-append test [] ys = refl
  keep-append test (x ∷ xs) ys = ground (arith, keep-append test xs ys)

  pub append-none : (xs : List A) → xs ++ [] ≡ xs
  append-none [] = refl
  append-none (x ∷ xs) = ap (λ (l : List A). x ∷ l) (append-none xs)

  pub append_assoc : (xs ys zs : List A) → (xs ++ ys) ++ zs ≡ xs ++ (ys ++ zs)
  append_assoc [] ys zs = refl
  append_assoc (x ∷ xs) ys zs = ap (λ (l : List A). x ∷ l) (append_assoc xs ys zs)

  -- The row that an update through a unique key changed is found by its key.
  pub find-update_first :
      (test : A → Bool) (change : A → A) (xs : List A) (x : A)
      → find test xs ≡ some x
      → test (change x) ≡ true
      → find test (update_first test change xs) ≡ some (change x)
  unfolding find update_first
  find-update_first test change [] x h t = ground (arith, h)
  find-update_first test change (y ∷ xs) x h t = ground (arith, find-update_first test change xs x)

  -- A row that is added is found, where no row passed before.
  pub find-append :
      (test : A → Bool) (xs : List A) (x : A)
      → find test xs ≡ none
      → test x ≡ true
      → find test (xs ++ x ∷ []) ≡ some x
  unfolding find
  find-append test [] x h t = ground (arith, t)
  find-append test (y ∷ xs) x h t = ground (arith, find-append test xs x)
