-- ===== src/Bitop/Tests.antt =====
-- The bit positions on concrete words.
use temp_data_structure_benc.Prelude.{◌+◌, ◌≡◌, ◌^◌, refl, arith}
use temp_data_structure_benc.Bitop.{msb_step, msb32, msb64, lsb_step, lsb32, lsb64}
use temp_data_structure_benc.Bitop.Highest.{HighestBit, msb64_lem}
use temp_data_structure_benc.Bitop.Lowest.{LowestBit, lsb64_lem}

positions : (msb32 0x00f00000 ≡ 24) × (lsb32 0x00f00000 ≡ 21) × (msb32 0 ≡ 0) × (lsb32 0 ≡ 0)
unfolding msb32 lsb32 msb_step lsb_step
positions = (refl, refl, refl, refl)

msb64_lem_example : HighestBit (2 ^ 40 + 5) (msb64 (2 ^ 40 + 5))
msb64_lem_example = msb64_lem (2 ^ 40 + 5) (omega arith) (omega arith)

lsb64_lem_example : LowestBit (2 ^ 40) (lsb64 (2 ^ 40))
lsb64_lem_example = lsb64_lem (2 ^ 40) (omega arith) (omega arith)
