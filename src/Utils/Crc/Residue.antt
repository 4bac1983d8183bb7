-- ===== src/Utils/Crc/Residue.antt =====
-- src/utils.rs: a frame that ends in its own CRC leaves the register at zero, and only such a frame.
use rs_modbus.Prelude.{ℕ, ◌/◌, ◌%◌, ◌<◌, ◌≡◌, ◌↔◌, refl, ap, ◌∙◌, sym, arith}
use rs_modbus.Prelude.{[], ◌∷◌, ◌++◌, Bytes, IsByte, IsU16, hi, lo, bit_xor}
use rs_modbus.Prelude.{◌==◌, ltb, leb, ◌||◌, true}
use rs_modbus.Prelude.Bits.{bit_xor-lt, bit_xor_self, bit_xor-zero, zero-bit_xor, bit_xor-mod_256}
use rs_modbus.Prelude.Bits.{bit_xor-div_256, bit_xor-cancel_left, all_below, all_below_sound}
use rs_modbus.Utils.Crc.{crc_table, crc_step, crc_with_seed, crc}
use rs_modbus.Utils.Crc.Bitwise.{crc_with_seed-append}

crc_table_facts : all_below 256 (λ i. ltb (crc_table i) 65536) ≡ true
unfolding crc_table all_below
crc_table_facts = refl

pub crc_table-lt : (i : ℕ) → i < 256 → crc_table i < 65536
crc_table-lt i h =
    ground (arith, all_below_sound (λ i. ltb (crc_table i) 65536) i 256 h crc_table_facts)

crc_table_high_facts : all_below 256 (λ i. i == 0 || leb 256 (crc_table i)) ≡ true
unfolding crc_table all_below
crc_table_high_facts = refl

-- Only the entry of zero has a zero high byte.
pub crc_table-high : (i : ℕ) → i < 256 → crc_table i < 256 → i ≡ 0
crc_table-high i h small =
    ground
      (arith, all_below_sound (λ i. i == 0 || leb 256 (crc_table i)) i 256 h crc_table_high_facts)

crc_table-zero : crc_table 0 ≡ 0
unfolding crc_table
crc_table-zero = refl

pub crc_step-IsU16 : (r b : ℕ) → IsU16 r → IsU16 (crc_step r b)
unfolding crc_step
crc_step-IsU16 r b h =
    bit_xor-lt 16 (crc_table (bit_xor r b % 256)) (r / 256)
      (crc_table-lt (bit_xor r b % 256) (omega arith)) (omega arith)

pub crc_with_seed-IsU16 : (bs : Bytes) (seed : ℕ) → IsU16 seed → IsU16 (crc_with_seed bs seed)
unfolding crc_with_seed
crc_with_seed-IsU16 [] seed h = h
crc_with_seed-IsU16 (b ∷ bs) seed h =
    crc_with_seed-IsU16 bs (crc_step seed b) (crc_step-IsU16 seed b h)

pub crc-IsU16 : (bs : Bytes) → IsU16 (crc bs)
unfolding crc
crc-IsU16 bs = crc_with_seed-IsU16 bs 0xffff (omega arith)

-- A byte equal to the low half of the register shifts the high half down.
crc_step_lo : (r b : ℕ) → r % 256 ≡ b % 256 → crc_step r b ≡ r / 256
unfolding crc_step
crc_step_lo r b e =
    ap (λ (t : ℕ). bit_xor t (r / 256)) (ap crc_table low ∙ crc_table-zero) ∙ zero-bit_xor (r / 256)
  where
    low : bit_xor r b % 256 ≡ 0
    low = bit_xor-mod_256 r b ∙ ap (λ (t : ℕ). bit_xor t (b % 256)) e ∙ bit_xor_self (b % 256)

high_byte : (r b : ℕ) → IsU16 r → crc_step r b / 256 ≡ crc_table (bit_xor r b % 256) / 256
unfolding crc_step
high_byte r b hr =
    bit_xor-div_256 (crc_table (bit_xor r b % 256)) (r / 256)
    ∙ ap (bit_xor (crc_table (bit_xor r b % 256) / 256)) gone
    ∙ bit_xor-zero (crc_table (bit_xor r b % 256) / 256)
  where
    gone : r / 256 / 256 ≡ 0
    gone = omega arith

index_zero : (r b : ℕ) → IsU16 r → crc_step r b < 256 → bit_xor r b % 256 ≡ 0
index_zero r b hr small =
    crc_table-high (bit_xor r b % 256) (omega arith) (omega (arith, high_byte r b hr))

crc_step_index : (r b : ℕ) → IsU16 r → IsByte b → crc_step r b < 256 → b ≡ r % 256
crc_step_index r b hr hb small =
    bit_xor-cancel_left (r % 256) b (r % 256) (zero_sum ∙ sym (bit_xor_self (r % 256)))
  where
    low : b ≡ b % 256
    low = omega arith

    zero_sum : bit_xor (r % 256) b ≡ 0
    zero_sum = ap (bit_xor (r % 256)) low ∙ sym (bit_xor-mod_256 r b) ∙ index_zero r b hr small

-- If the register becomes a byte, the byte fed was its low half, and its high half remains.
pub crc_step_small :
    (r b : ℕ) → IsU16 r → IsByte b → crc_step r b < 256 → (b ≡ r % 256) × (crc_step r b ≡ r / 256)
crc_step_small r b hr hb small = (
  crc_step_index r b hr hb small,
  crc_step_lo r b (omega (arith, crc_step_index r b hr hb small)),
)

own_bytes : (r a b : ℕ) → IsU16 r → a ≡ lo r → b ≡ hi r → crc_step (crc_step r a) b ≡ 0
own_bytes r a b hr ea eb =
    ap (λ (t : ℕ). crc_step t b) (crc_step_lo r a (omega arith))
    ∙ crc_step_lo (r / 256) b (omega arith)
    ∙ omega arith

only_own :
    (r a b : ℕ)
    → IsU16 r
    → IsByte a
    → IsByte b
    → crc_step (crc_step r a) b ≡ 0
    → (a ≡ lo r) × (b ≡ hi r)
only_own r a b hr ha hb e =
    let (eb, rest) = crc_step_small (crc_step r a) b (crc_step-IsU16 r a hr) hb (omega arith) in
    let (ea, top) = crc_step_small r a hr ha (omega arith) in (ea, omega arith)

-- A running CRC returns to zero over two bytes exactly if they are its own, low byte first.
pub residue_iff :
    (r a b : ℕ)
    → IsU16 r
    → IsByte a
    → IsByte b
    → (crc_step (crc_step r a) b ≡ 0) ↔ ((a ≡ lo r) × (b ≡ hi r))
residue_iff r a b hr ha hb = (λ e. only_own r a b hr ha hb e, λ p. own_bytes r a b hr p.0 p.1)

-- A frame has CRC zero exactly if its last two bytes are the CRC of the rest, low byte first.
crc-append_two :
    (bs : Bytes) (a b : ℕ)
    → IsByte a
    → IsByte b
    → (crc (bs ++ (a ∷ b ∷ [])) ≡ 0) ↔ ((a ≡ lo (crc bs)) × (b ≡ hi (crc bs)))
unfolding crc
crc-append_two bs a b ha hb =
    rw (crc_with_seed-append bs (a ∷ b ∷ []) 0xffff)
      (unfold crc_with_seed in residue_iff (crc_with_seed bs 0xffff) a b (crc-IsU16 bs) ha hb)
