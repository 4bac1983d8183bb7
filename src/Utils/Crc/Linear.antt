-- ===== src/Utils/Crc/Linear.antt =====
-- The CRC register shifted bit by bit is linear for the exclusive or.
use mathlib.Core.Path.{ap₂}
use rs_modbus.Prelude.{ℕ, zero, suc, ◌+◌, ◌*◌, ◌/◌, ◌%◌, ◌^◌, ◌<◌, ◌≡◌, refl, ap, ◌∙◌, sym, arith}
use rs_modbus.Prelude.{◌==◌, if◌then◌else◌, bit_xor}
use rs_modbus.Prelude.Bits.{bit_xor-half, bit_xor-parity, bit_xor_assoc, bit_xor_comm}
use rs_modbus.Prelude.Bits.{
  bit_xor_self, bit_xor-zero, zero-bit_xor, bit_xor_fields, agree_below, all_below,
}
use rs_modbus.Utils.Crc.{crc_table}

-- The generator polynomial x^16 + x^15 + x^2 + 1, its bits reversed.
abbrev pub polynomial : ℕ
polynomial = 0xa001

-- One shift of the register to the right.
pub shift_step : ℕ → ℕ
shift_step r = if r % 2 == 1 then bit_xor (r / 2) polynomial else r / 2

pub shift : ℕ → ℕ → ℕ
shift zero r = r
shift (suc k) r = shift k (shift_step r)

-- (a + p) + (b + p) = a + b
xor_cancel_pair : (a b p : ℕ) → bit_xor (bit_xor a p) (bit_xor b p) ≡ bit_xor a b
xor_cancel_pair a b p =
    bit_xor_assoc a p (bit_xor b p)
    ∙ ap (bit_xor a) (
        ap (bit_xor p) (bit_xor_comm b p)
        ∙ sym (bit_xor_assoc p p b)
        ∙ ap (λ (t : ℕ). bit_xor t b) (bit_xor_self p)
        ∙ zero-bit_xor b)

-- (a + p) + b = (a + b) + p
xor_swap : (a b p : ℕ) → bit_xor (bit_xor a p) b ≡ bit_xor (bit_xor a b) p
xor_swap a b p = bit_xor_assoc a p b ∙ ap (bit_xor a) (bit_xor_comm p b) ∙ sym (bit_xor_assoc a b p)

pub shift_step-bit_xor :
    (a b : ℕ) → shift_step (bit_xor a b) ≡ bit_xor (shift_step a) (shift_step b)
unfolding shift_step
shift_step-bit_xor a b = ground (
  arith,
  bit_xor-half a b,
  bit_xor-parity a b,
  xor_cancel_pair (a / 2) (b / 2) polynomial,
  xor_swap (a / 2) (b / 2) polynomial,
  bit_xor_assoc (a / 2) (b / 2) polynomial,
)

pub shift-bit_xor : (k a b : ℕ) → shift k (bit_xor a b) ≡ bit_xor (shift k a) (shift k b)
unfolding shift
shift-bit_xor zero a b = refl
shift-bit_xor (suc k) a b =
    ap (shift k) (shift_step-bit_xor a b) ∙ shift-bit_xor k (shift_step a) (shift_step b)

shift_step_even : (h : ℕ) → shift_step (2 * h) ≡ h
unfolding shift_step
shift_step_even h = ground arith

pub shift-mul_256 : (h : ℕ) → shift 8 (256 * h) ≡ h
unfolding shift
shift-mul_256 h = ground (
  arith,
  shift_step_even (128 * h),
  shift_step_even (64 * h),
  shift_step_even (32 * h),
  shift_step_even (16 * h),
  shift_step_even (8 * h),
  shift_step_even (4 * h),
  shift_step_even (2 * h),
  shift_step_even h,
)

split_byte : (x : ℕ) → x ≡ bit_xor (x % 256) (256 * (x / 256))
split_byte x = sym (
    ap₂ bit_xor low high
    ∙ bit_xor_fields 8 0 (x / 256) (x % 256) 0 (omega arith) (omega arith)
    ∙ omega (arith, zero-bit_xor (x / 256), bit_xor-zero (x % 256)))
  where
    low : x % 256 ≡ 0 * 2 ^ 8 + x % 256
    low = omega arith

    high : 256 * (x / 256) ≡ x / 256 * 2 ^ 8 + 0
    high = omega arith

-- Eight shifts move the high part down and act on the low byte alone.
pub shift_byte : (x : ℕ) → shift 8 x ≡ bit_xor (shift 8 (x % 256)) (x / 256)
shift_byte x =
    ap (shift 8) (split_byte x)
    ∙ shift-bit_xor 8 (x % 256) (256 * (x / 256))
    ∙ ap (bit_xor (shift 8 (x % 256))) (shift-mul_256 (x / 256))

-- The entry of a byte is the register that it becomes in eight shifts.
pub crc_table-shift : (i : ℕ) → i < 256 → crc_table i ≡ shift 8 i
unfolding crc_table shift shift_step all_below
crc_table-shift i h = agree_below 256 crc_table (shift 8) i refl h
