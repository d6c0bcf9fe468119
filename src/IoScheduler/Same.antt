-- ===== src/IoScheduler/Same.antt =====
-- The test of two `int`s for equality.
use common_utils_lib.Base.{◌≡◌, refl, ap, true, arith, ==-eq, ==_refl}
use common_utils_lib.Base.Int.{ℤ, pos, negsuc}
use common_utils_lib.IoScheduler.{same}

pub same_eq : (a b : ℤ) → same a b ≡ true → a ≡ b
same_eq (pos a) (pos b) e = ap pos (==-eq a b e)
same_eq (pos a) (negsuc b) e = cc
same_eq (negsuc a) (pos b) e = cc
same_eq (negsuc a) (negsuc b) e = ap negsuc (==-eq a b e)

pub same_refl : (a : ℤ) → same a a ≡ true
same_refl (pos a) = ==_refl a
same_refl (negsuc a) = ==_refl a

pub same_sym : (a b : ℤ) → same a b ≡ same b a
same_sym (pos a) (pos b) = ground arith
same_sym (pos a) (negsuc b) = refl
same_sym (negsuc a) (pos b) = refl
same_sym (negsuc a) (negsuc b) = ground arith
