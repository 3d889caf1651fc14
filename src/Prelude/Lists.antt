-- ===== src/Prelude/Lists.antt =====
-- Tables are lists of rows: the row tests of SELECT, UPDATE and DELETE statements.
use Prim.Native.Nat.{ℕ, suc, ◌+◌}
use mathlib.Core.Path.{◌≡◌, refl, subst}
use mathlib.Core.Logic.{inl, inr}
use mathlib.Core.Bool.{Bool, true, false, not, ◌&&◌, ◌||◌}
use mathlib.Core.Option.{Option, none, some}
use mathlib.Core.List.{List, [], ◌∷◌}
use native.Mathlib.Omega.{arith}
use dinchy.Prelude.Tests.{if◌then◌else◌, Bool-cases}

module _ {ℓ} {A : Type ℓ} where
  abbrev pub length : List A → ℕ
  length [] = 0
  length (x ∷ xs) = suc (length xs)

  -- The first row that passes the test.
  unfoldable pub find : (A → Bool) → List A → Option A
  find p [] = none
  find p (x ∷ xs) = if p x then some x else find p xs

  unfoldable pub any : (A → Bool) → List A → Bool
  any p [] = false
  any p (x ∷ xs) = p x || any p xs

  unfoldable pub update_where : (A → Bool) → (A → A) → List A → List A
  update_where p f [] = []
  update_where p f (x ∷ xs) = (if p x then f x else x) ∷ update_where p f xs

  unfoldable pub keep_if : (A → Bool) → List A → List A
  keep_if p [] = []
  keep_if p (x ∷ xs) = let rest = keep_if p xs in if p x then x ∷ rest else rest

  abbrev pub All {κ} : (A → Type κ) → List A → Type κ
  All P [] = Unit
  All P (x ∷ xs) = P x × All P xs

  -- What is found passes the test.
  pub find_holds : (p : A → Bool) (xs : List A) {a : A} → find p xs ≡ some a → p a ≡ true
  unfolding find
  find_holds p [] h = ground arith
  find_holds p (x ∷ xs) h = elim (Bool-cases (p x)) [
    | inl here ↦ ground arith
    | inr there ↦ find_holds p xs (ground arith)
  ]

  found-here :
      (p : A → Bool) (x : A) (xs : List A) (a : A) → p x ≡ true → find p (x ∷ xs) ≡ some a → x ≡ a
  unfolding find
  found-here p x xs a here h = ground arith

  -- A found row satisfies what all rows satisfy.
  pub find-All {κ} :
      (P : A → Type κ) (p : A → Bool) (xs : List A) {a : A} → All P xs → find p xs ≡ some a → P a
  unfolding find
  find-All P p [] hs h = absurd (ground arith)
  find-All P p (x ∷ xs) {a} (hx, hs) h = elim (Bool-cases (p x)) [
    | inl here ↦ subst P (found-here p x xs a here h) hx
    | inr there ↦ find-All P p xs hs (ground arith)
  ]

  -- An update that the test reads no differently leaves the found row at its place.
  pub find-update_where :
      (q p : A → Bool) (f : A → A) (xs : List A)
      → ((a : A) → q (f a) ≡ q a)
      → find q (update_where p f xs)
        ≡ (elim (find q xs) [ none ↦ none | some a ↦ some (if p a then f a else a) ])
  unfolding find update_where
  find-update_where q p f [] same = refl
  find-update_where q p f (x ∷ xs) same = ground (arith, same x, find-update_where q p f xs same)

module _ {ℓ} {A : Type ℓ} where
  -- The same as a test, for invariants of a list.
  unfoldable pub all : (A → Bool) → List A → Bool
  all p [] = true
  all p (x ∷ xs) = p x && all p xs

  pub all-keep_if : (p q : A → Bool) (xs : List A) → all p xs ≡ true → all p (keep_if q xs) ≡ true
  unfolding keep_if all
  all-keep_if p q [] h = h
  all-keep_if p q (x ∷ xs) h = ground (arith, all-keep_if p q xs)

  pub all_mono :
      (p q : A → Bool) (xs : List A)
      → ((a : A) → p a ≡ true → q a ≡ true)
      → all p xs ≡ true
      → all q xs ≡ true
  unfolding all
  all_mono p q [] f h = refl
  all_mono p q (x ∷ xs) f h = ground (arith, f x, all_mono p q xs f)

  pub all-find :
      (p q : A → Bool) (xs : List A) (a : A) → all p xs ≡ true → find q xs ≡ some a → p a ≡ true
  unfolding all find
  all-find p q [] a h found = cc
  all-find p q (x ∷ xs) a h found = ground (arith, all-find p q xs a)

  pub length-keep_if-not :
      (p : A → Bool) (xs : List A)
      → length (keep_if p xs) + length (keep_if (λ x. not (p x)) xs) ≡ length xs
  unfolding keep_if
  length-keep_if-not p [] = refl
  length-keep_if-not p (x ∷ xs) = ground (arith, length-keep_if-not p xs)

  pub All-map {κ κ'} :
      {P : A → Type κ} {Q : A → Type κ'} (xs : List A) → ((a : A) → P a → Q a) → All P xs → All Q xs
  All-map [] f h = tt
  All-map (x ∷ xs) f (hx, h) = (f x hx, All-map xs f h)

  pub All-zip {κ κ'} :
      (P : A → Type κ) (Q : A → Type κ') (xs : List A)
      → All P xs
      → All Q xs
      → All (λ a. P a × Q a) xs
  All-zip P Q [] h h' = tt
  All-zip P Q (x ∷ xs) (hx, h) (hx', h') = ((hx, hx'), All-zip P Q xs h h')

module _ {ℓ κ} {A B : Type ℓ} (P : A → B → Type κ) where
  All-nil : (ys : List B) → All (λ b. All (λ a. P a b) []) ys
  All-nil [] = tt
  All-nil (y ∷ ys) = (tt, All-nil ys)

  pub All-swap :
      (xs : List A) (ys : List B)
      → All (λ a. All (λ b. P a b) ys) xs
      → All (λ b. All (λ a. P a b) xs) ys
  All-swap [] ys h = All-nil ys
  All-swap (x ∷ xs) ys (hx, h) =
      All-map ys (λ b (px, pxs). (px, pxs)) (All-zip (P x) _ ys hx (All-swap xs ys h))
