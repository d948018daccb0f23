-- ===== src/EngineIo/Frame/Bits.antt =====
-- The bit operations of the frame header, over all bytes.
use Prim.Native.Nat.{bit_and, bit_or}
use socket_io.Base.{
  ℕ, zero, suc, ◌+◌, ◌%◌, ◌<◌, ◌≡◌, refl, Bool, true, ◌&&◌, arith, ◌==◌, leb, ==_iff, if◌then◌else◌,
}

-- The test passes at every number under the bound.
passes : (ℕ → Bool) → ℕ → Bool
passes test zero = true
passes test (suc bound) = passes test bound && test bound

passes_at : (test : ℕ → Bool) (n bound : ℕ) → n < bound → passes test bound ≡ true → test n ≡ true
unfolding passes
passes_at test n zero below table = elim below [ ]
passes_at test n (suc bound) below table = ground (arith, passes_at test n bound)

abbrev marks : ℕ → Bool
marks n = bit_or n 0x80 == n + 128

abbrev masks : ℕ → Bool
masks n = bit_and n 0x7f == n % 128

abbrev flags : ℕ → Bool
flags n = bit_and n 0x80 == (if leb 128 n then 0x80 else 0)

marks_table : passes marks 128 ≡ true
unfolding passes
marks_table = refl

masks_table : passes masks 256 ≡ true
unfolding passes
masks_table = refl

flags_table : passes flags 256 ≡ true
unfolding passes
flags_table = refl

pub bit_or_mark : (n : ℕ) → n < 128 → bit_or n 0x80 ≡ n + 128
bit_or_mark n below = (==_iff _ _).0 (passes_at marks n 128 below marks_table)

pub bit_and_length : (n : ℕ) → n < 256 → bit_and n 0x7f ≡ n % 128
bit_and_length n below = (==_iff _ _).0 (passes_at masks n 256 below masks_table)

pub bit_and_flag : (n : ℕ) → n < 256 → bit_and n 0x80 ≡ (if leb 128 n then 0x80 else 0)
bit_and_flag n below = (==_iff _ _).0 (passes_at flags n 256 below flags_table)
