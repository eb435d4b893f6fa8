-- ===== src/Sigenergy/Words.antt =====
-- What the words of a register mean.
use energy_optimiser.Prelude.{
  ℕ, suc, ◌+◌, ◌-◌, ◌*◌, ◌^◌, ◌<◌, ◌==◌, ◌≡◌, refl, none, some, List, [], ◌∷◌, ℤ, pos, negsuc,
  if◌then◌else◌, arith,
}
use energy_optimiser.Watchdog.{high_word, low_word}
use energy_optimiser.Sigenergy.{
  registers, Reader, quantity, decoded, s32, u32, read, read_input_s32, read_input_u32,
}

-- The two words that a 32-bit number is written as.
abbrev pub two_words : ℕ → List ℕ
two_words n = high_word n ∷ low_word n ∷ []

-- Two's complement in 32 bits.
abbrev pub complement32 : ℤ → ℕ
complement32 (pos n) = n
complement32 (negsuc n) = 2 ^ 32 - suc n

-- A number fits in 32 bits with its sign.
abbrev pub FitsS32 : ℤ → Type 0
FitsS32 (pos n) = n < 2 ^ 31
FitsS32 (negsuc n) = n < 2 ^ 31

words_value : (n : ℕ) → n < 2 ^ 32 → high_word n * 2 ^ 16 + low_word n ≡ n
words_value n h = omega (arith, h)

s32-two_words : (v : ℤ) → FitsS32 v → s32 (two_words (complement32 v)) ≡ decoded v
unfolding s32
s32-two_words (pos n) h = rw (words_value n (omega (arith, h))) (ground (arith, h))
s32-two_words (negsuc n) h =
    rw (words_value (2 ^ 32 - suc n) (omega (arith, h))) (ground (arith, h))

-- A signed number of 32 bits, held in two's complement as two words, is read back, as
-- thousandths.
pub read_input_s32_lem :
    (v : ℤ) (r : Reader)
    → FitsS32 v
    → (read_input_s32 (registers (two_words (complement32 v))) r).0 ≡ some (quantity v 1000)
unfolding read_input_s32 read
read_input_s32_lem v r h = rw (s32-two_words v h) refl

-- A number that fits in 32 bits and was written as two words is read back, unless all its bits
-- are ones, which stands for no value.
pub read_input_u32_lem :
    (n gain : ℕ) (r : Reader)
    → n < 2 ^ 32
    → (read_input_u32 gain (registers (two_words n)) r).0
      ≡ (if n == 2 ^ 32 - 1 then none else some (quantity (pos n) gain))
unfolding read_input_u32 read u32
read_input_u32_lem n gain r h = rw (words_value n h) (ground arith)
