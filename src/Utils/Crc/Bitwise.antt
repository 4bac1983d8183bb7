-- ===== src/Utils/Crc/Bitwise.antt =====
-- src/utils.rs: the table-driven loop against the CRC computed bit by bit, and its chaining.
use rs_modbus.Prelude.{ℕ, ◌/◌, ◌%◌, ◌≡◌, refl, ap, ◌∙◌, sym, arith, [], ◌∷◌, ◌++◌}
use rs_modbus.Prelude.{Bytes, IsByte, All, bit_xor}
use rs_modbus.Prelude.Bits.{bit_xor-zero, bit_xor-div_256}
use rs_modbus.Utils.Crc.{crc_step, crc_with_seed}
use rs_modbus.Utils.Crc.Linear.{shift, shift_byte, crc_table-shift}

-- The definition of the CRC: each byte is added to the register, which is then shifted eight times.
abbrev pub bitwise_crc : Bytes → ℕ → ℕ
bitwise_crc [] r = r
bitwise_crc (b ∷ bs) r = bitwise_crc bs (shift 8 (bit_xor r b))

pub crc_step-shift : (r b : ℕ) → IsByte b → crc_step r b ≡ shift 8 (bit_xor r b)
unfolding crc_step
crc_step-shift r b h =
    ap (λ (t : ℕ). bit_xor t (r / 256)) (crc_table-shift (bit_xor r b % 256) (omega arith))
    ∙ ap (bit_xor (shift 8 (bit_xor r b % 256))) high
    ∙ sym (shift_byte (bit_xor r b))
  where
    none_above : b / 256 ≡ 0
    none_above = omega arith

    high : r / 256 ≡ bit_xor r b / 256
    high = sym (bit_xor-div_256 r b ∙ ap (bit_xor (r / 256)) none_above ∙ bit_xor-zero (r / 256))

-- The table-driven loop computes the bitwise CRC, from every seed, on every sequence of bytes.
pub crc_with_seed-bitwise_crc :
    (bs : Bytes) (r : ℕ) → All IsByte bs → crc_with_seed bs r ≡ bitwise_crc bs r
unfolding crc_with_seed
crc_with_seed-bitwise_crc [] r h = refl
crc_with_seed-bitwise_crc (b ∷ bs) r (hb, hbs) =
    ap (crc_with_seed bs) (crc_step-shift r b hb)
    ∙ crc_with_seed-bitwise_crc bs (shift 8 (bit_xor r b)) hbs

-- A running CRC extended by more bytes is the CRC of the whole.
pub crc_with_seed-append :
    (xs ys : Bytes) (seed : ℕ)
    → crc_with_seed (xs ++ ys) seed ≡ crc_with_seed ys (crc_with_seed xs seed)
unfolding crc_with_seed
crc_with_seed-append [] ys seed = refl
crc_with_seed-append (x ∷ xs) ys seed = crc_with_seed-append xs ys (crc_step seed x)
