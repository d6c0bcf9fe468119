-- ===== src/IoScheduler/Ids.antt =====
-- Timer ids: negative descriptors, kept in a stack of pointers.
use common_utils_lib.Base.{◌-◌, ◌%◌, ◌^◌, ◌<◌, ◌≡◌, ap, true, false, arith, ltb}
use common_utils_lib.Base.Int.{ℤ, pos, negsuc}
use common_utils_lib.IoScheduler.{fd_of_ptr, ptr_of_fd}

-- The values of a 32-bit `int`.
abbrev pub IsInt : ℤ → Type 0
IsInt (pos n) = n < 2 ^ 31
IsInt (negsuc n) = n < 2 ^ 31

-- A descriptor or timer id that is an `int` survives the way through a pointer.
pub fd_of_ptr-ptr_of_fd : (fd : ℤ) → IsInt fd → fd_of_ptr (ptr_of_fd fd) ≡ fd
unfolding fd_of_ptr ptr_of_fd
fd_of_ptr-ptr_of_fd (pos n) h =
    let low : n % 2 ^ 32 ≡ n = omega (arith, h) in
    let small : ltb n (2 ^ 31) ≡ true = ground (arith, h) in rw (low, small)
fd_of_ptr-ptr_of_fd (negsuc n) h =
    let low : (2 ^ 64 - 1 - n) % 2 ^ 32 ≡ 2 ^ 32 - 1 - n = omega (arith, h) in
    let large : ltb (2 ^ 32 - 1 - n) (2 ^ 31) ≡ false = ground (arith, h) in
    rw (low, large) (ap negsuc (omega (arith, h)))
