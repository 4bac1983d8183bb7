-- ===== src/Utils/Crc/Detect.antt =====
-- src/utils.rs: the CRC detects every corruption that is confined to one byte.
use mathlib.Core.Path.{ap₂}
use rs_modbus.Prelude.{◌≢◌, ◌⊎◌, inl, inr, ℕ, ◌<◌, ◌≡◌, ap, ◌∙◌, sym, arith}
use rs_modbus.Prelude.{[], ◌∷◌, ◌++◌, Bytes, IsByte, IsU16, All, bit_xor}
use rs_modbus.Prelude.Bits.{bit_xor-lt, bit_xor_self, bit_xor-zero}
use rs_modbus.Prelude.Bits.{
  bit_xor-cancel_left, bit_xor-cancel_right, bit_xor_comm, bit_xor_assoc, zero-bit_xor,
}
use rs_modbus.Utils.Crc.{crc_step, crc_with_seed, crc}
use rs_modbus.Utils.Crc.Linear.{shift, shift-bit_xor}
use rs_modbus.Utils.Crc.Bitwise.{crc_with_seed-append, crc_step-shift}
use rs_modbus.Utils.Crc.Residue.{crc_step-IsU16, crc_step_small, crc-IsU16}

-- The register, shifted eight times, vanishes only if it was zero.
shift-eq-zero : (z : ℕ) → IsU16 z → shift 8 z ≡ 0 → z ≡ 0
shift-eq-zero z h e = omega (arith, crc_step_small z 0 h (omega arith) (omega (arith, step)), step)
  where
    step : crc_step z 0 ≡ 0
    step = crc_step-shift z 0 (omega arith) ∙ ap (shift 8) (bit_xor-zero z) ∙ e

eq_of_xor_zero : (x y : ℕ) → bit_xor x y ≡ 0 → x ≡ y
eq_of_xor_zero x y e = sym (bit_xor-cancel_left x y x (e ∙ sym (bit_xor_self x)))

shift-injective : (x y : ℕ) → IsU16 x → IsU16 y → shift 8 x ≡ shift 8 y → x ≡ y
shift-injective x y hx hy e =
    eq_of_xor_zero x y (shift-eq-zero (bit_xor x y) (bit_xor-lt 16 x y hx hy) vanishes)
  where
    vanishes : shift 8 (bit_xor x y) ≡ 0
    vanishes =
        shift-bit_xor 8 x y ∙ ap (λ (t : ℕ). bit_xor t (shift 8 y)) e ∙ bit_xor_self (shift 8 y)

crc_step-injective :
    (r s b : ℕ) → IsU16 r → IsU16 s → IsByte b → crc_step r b ≡ crc_step s b → r ≡ s
crc_step-injective r s b hr hs hb e = bit_xor-cancel_right b r s (
    shift-injective (bit_xor r b) (bit_xor s b) (bit_xor-lt 16 r b hr (omega arith))
      (bit_xor-lt 16 s b hs (omega arith))
      (sym (crc_step-shift r b hb) ∙ e ∙ crc_step-shift s b hb))

-- Different registers stay different over the same bytes.
pub crc_with_seed-injective :
    (bs : Bytes) (r s : ℕ)
    → IsU16 r
    → IsU16 s
    → All IsByte bs
    → crc_with_seed bs r ≡ crc_with_seed bs s
    → r ≡ s
unfolding crc_with_seed
crc_with_seed-injective [] r s hr hs h e = e
crc_with_seed-injective (b ∷ bs) r s hr hs (hb, h) e = crc_step-injective r s b hr hs hb (
    crc_with_seed-injective bs (crc_step r b) (crc_step s b) (crc_step-IsU16 r b hr)
      (crc_step-IsU16 s b hs) h e)

-- (r + a) + (r + b) = a + b
xor_common : (r a b : ℕ) → bit_xor (bit_xor r a) (bit_xor r b) ≡ bit_xor a b
xor_common r a b =
    ap (λ (t : ℕ). bit_xor t (bit_xor r b)) (bit_xor_comm r a)
    ∙ bit_xor_assoc a r (bit_xor r b)
    ∙ ap (bit_xor a)
        (sym (bit_xor_assoc r r b) ∙ ap (λ (t : ℕ). bit_xor t b) (bit_xor_self r) ∙ zero-bit_xor b)

-- Registers that were equal before one byte differ, after it, as the bytes do.
step_difference :
    (r a b : ℕ)
    → IsByte a
    → IsByte b
    → bit_xor (crc_step r a) (crc_step r b) ≡ crc_step (bit_xor a b) 0
step_difference r a b ha hb =
    ap₂ bit_xor (crc_step-shift r a ha) (crc_step-shift r b hb)
    ∙ sym (shift-bit_xor 8 (bit_xor r a) (bit_xor r b))
    ∙ ap (shift 8) (xor_common r a b ∙ sym (bit_xor-zero (bit_xor a b)))
    ∙ sym (crc_step-shift (bit_xor a b) 0 (omega arith))

-- Registers that differ by less than a byte after one byte were fed the same byte.
first_byte : (r a b : ℕ) → IsByte a → IsByte b → bit_xor (crc_step r a) (crc_step r b) < 256 → a ≡ b
first_byte r a b ha hb small = eq_of_xor_zero a b (
    omega (
      arith,
      bit_xor-lt 8 a b ha hb,
      (crc_step_small (bit_xor a b) 0 (omega (arith, bit_xor-lt 8 a b ha hb)) (omega arith)
          (omega (arith, step_difference r a b ha hb))).0,
    ))

-- (u + a) = (v + b) gives (u + v) = (a + b)
xor_transpose : (u v a b : ℕ) → bit_xor u a ≡ bit_xor v b → bit_xor u v ≡ bit_xor a b
xor_transpose u v a b e = bit_xor-cancel_left a (bit_xor u v) (bit_xor a b) (
    sym (bit_xor_assoc a u v)
    ∙ ap (λ (t : ℕ). bit_xor t v) (bit_xor_comm a u ∙ e ∙ bit_xor_comm v b)
    ∙ bit_xor_assoc b v v
    ∙ ap (bit_xor b) (bit_xor_self v)
    ∙ bit_xor-zero b
    ∙ sym
        (sym (bit_xor_assoc a a b) ∙ ap (λ (t : ℕ). bit_xor t b) (bit_xor_self a) ∙ zero-bit_xor b))

last_byte :
    (r s a b : ℕ)
    → IsU16 r
    → IsU16 s
    → IsByte a
    → IsByte b
    → crc_step r a ≡ crc_step s b
    → bit_xor r a ≡ bit_xor s b
last_byte r s a b hr hs ha hb e =
    shift-injective (bit_xor r a) (bit_xor s b) (bit_xor-lt 16 r a hr (omega arith))
      (bit_xor-lt 16 s b hs (omega arith)) (sym (crc_step-shift r a ha) ∙ e ∙ crc_step-shift s b hb)

two_bytes :
    (r a a' b b' : ℕ)
    → IsU16 r
    → IsByte a
    → IsByte a'
    → IsByte b
    → IsByte b'
    → crc_step (crc_step r a) a' ≡ crc_step (crc_step r b) b'
    → (a ≡ b) × (a' ≡ b')
two_bytes r a a' b b' hr ha ha' hb hb' e = (same, bit_xor-cancel_left (crc_step r b) a' b' second)
  where
    joined : bit_xor (crc_step r a) a' ≡ bit_xor (crc_step r b) b'
    joined =
        last_byte (crc_step r a) (crc_step r b) a' b' (crc_step-IsU16 r a hr)
          (crc_step-IsU16 r b hr) ha' hb' e

    same : a ≡ b
    same = first_byte r a b ha hb (
        omega (
          arith,
          xor_transpose (crc_step r a) (crc_step r b) a' b' joined,
          bit_xor-lt 8 a' b' ha' hb',
        ))

    second : bit_xor (crc_step r b) a' ≡ bit_xor (crc_step r b) b'
    second = ap (λ (t : ℕ). bit_xor (crc_step r t) a') (sym same) ∙ joined

-- Two neighbouring bytes are determined by the CRC and the other bytes.
crc-injective_two :
    (xs ys : Bytes) (a a' b b' : ℕ)
    → IsByte a
    → IsByte a'
    → IsByte b
    → IsByte b'
    → All IsByte ys
    → crc (xs ++ (a ∷ a' ∷ ys)) ≡ crc (xs ++ (b ∷ b' ∷ ys))
    → (a ≡ b) × (a' ≡ b')
unfolding crc crc_with_seed
crc-injective_two xs ys a a' b b' ha ha' hb hb' h e =
    two_bytes (crc_with_seed xs 0xffff) a a' b b' (crc-IsU16 xs) ha ha' hb hb' (
      crc_with_seed-injective ys _ _ (after a a') (after b b') h (
        sym (crc_with_seed-append xs (a ∷ a' ∷ ys) 0xffff)
        ∙ e
        ∙ crc_with_seed-append xs (b ∷ b' ∷ ys) 0xffff))
  where
    after : (c d : ℕ) → IsU16 (crc_step (crc_step (crc_with_seed xs 0xffff) c) d)
    after c d =
        crc_step-IsU16 (crc_step (crc_with_seed xs 0xffff) c) d
          (crc_step-IsU16 (crc_with_seed xs 0xffff) c (crc-IsU16 xs))

-- Frames of one length that differ only in two neighbouring bytes have different CRCs.
pub crc_detects_two :
    (xs ys : Bytes) (a a' b b' : ℕ)
    → IsByte a
    → IsByte a'
    → IsByte b
    → IsByte b'
    → All IsByte ys
    → (a ≢ b) ⊎ (a' ≢ b')
    → crc (xs ++ (a ∷ a' ∷ ys)) ≢ crc (xs ++ (b ∷ b' ∷ ys))
crc_detects_two xs ys a a' b b' ha ha' hb hb' h (inl different) =
    λ e. different (crc-injective_two xs ys a a' b b' ha ha' hb hb' h e).0
crc_detects_two xs ys a a' b b' ha ha' hb hb' h (inr different) =
    λ e. different (crc-injective_two xs ys a a' b b' ha ha' hb hb' h e).1
