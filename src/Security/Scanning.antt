-- ===== src/Security/Scanning.antt =====
-- The scanner of password.go on a text that was put together.
use dinchy.Prelude.{split, push, eq_num, cat, ℕ, String, ◌≡◌, refl, true, [], ◌∷◌, arith}
use dinchy.Security.{Bytes, Lacks, constant_time_compare}

-- a text without the separator, and what follows it
pub split-cat_sep :
    (p s : String) → Lacks b'$' p → split b'$' (cat p (cat "$" s)) ≡ p ∷ split b'$' s
unfolding split push
split-cat_sep String.[] s h = refl
split-cat_sep (String.◌∷◌ c p) s (other, h) = rw (other, split-cat_sep p s h)

pub split-whole : (p : String) → Lacks b'$' p → split b'$' p ≡ p ∷ []
unfolding split push
split-whole String.[] h = refl
split-whole (String.◌∷◌ c p) (other, h) = rw (other, split-whole p h)

eq_num_refl : (n : ℕ) → eq_num n n ≡ true
eq_num_refl n = ground arith

pub constant_time_compare_refl : (xs : Bytes) → constant_time_compare xs xs ≡ true
unfolding constant_time_compare
constant_time_compare_refl [] = refl
constant_time_compare_refl (x ∷ xs) = ground (arith, constant_time_compare_refl xs)

pub constant_time_compare-eq : (xs ys : Bytes) → constant_time_compare xs ys ≡ true → xs ≡ ys
unfolding constant_time_compare
constant_time_compare-eq [] [] h = refl
constant_time_compare-eq [] (y ∷ ys) h = cc
constant_time_compare-eq (x ∷ xs) [] h = cc
constant_time_compare-eq (x ∷ xs) (y ∷ ys) h = ground (arith, constant_time_compare-eq xs ys)
