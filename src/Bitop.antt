-- ===== src/Bitop.antt =====
-- cds/details/bitop_generic.h: the position of the highest and of the lowest bit of a word.
pub mod Highest
pub mod Lowest
mod Tests
use Prim.Native.Nat.{bit_and}
use temp_data_structure_benc.Prelude.{ℕ, ◌+◌, ◌-◌, ◌*◌, ◌/◌, ◌%◌, ◌^◌, ◌==◌, if◌then◌else◌}

-- `if (!(x & mask)) { x <<= shift; r -= shift; }`, on the pair of x and r
pub msb_step : ℕ → ℕ → ℕ × ℕ → ℕ × ℕ
msb_step mask shift (x, r) =
    if bit_and x mask == 0 then ((x * 2 ^ shift) % 2 ^ 32, r - shift) else (x, r)

unfoldable pub msb32 : ℕ → ℕ
msb32 x =
    let halves = msb_step 0xffff0000 16 (x, 32) in
    let bytes = msb_step 0xff000000 8 halves in
    let nibbles = msb_step 0xf0000000 4 bytes in
    let pairs = msb_step 0xc0000000 2 nibbles in
    if x == 0 then 0 else (msb_step 0x80000000 1 pairs).1

pub msb64 : ℕ → ℕ
msb64 x = let h = x / 2 ^ 32 % 2 ^ 32 in if h == 0 then msb32 (x % 2 ^ 32) else msb32 h + 32

-- `if (!(x & mask)) { x >>= shift; r += shift; }`
pub lsb_step : ℕ → ℕ → ℕ × ℕ → ℕ × ℕ
lsb_step mask shift (x, r) = if bit_and x mask == 0 then (x / 2 ^ shift, r + shift) else (x, r)

unfoldable pub lsb32 : ℕ → ℕ
lsb32 x =
    let halves = lsb_step 0xffff 16 (x, 1) in
    let bytes = lsb_step 0xff 8 halves in
    let nibbles = lsb_step 0xf 4 bytes in
    let pairs = lsb_step 3 2 nibbles in if x == 0 then 0 else (lsb_step 1 1 pairs).1

pub lsb64 : ℕ → ℕ
lsb64 x =
    if x == 0
    then 0
    else if bit_and x 0xffffffff == 0
    then lsb32 (x / 2 ^ 32 % 2 ^ 32) + 32
    else lsb32 (x % 2 ^ 32)
