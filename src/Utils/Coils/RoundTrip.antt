-- ===== src/Utils/Coils/RoundTrip.antt =====
-- src/utils.rs: what `pack_coils` writes is what `parse_coils` reads.
use rs_modbus.Prelude.{
  ℕ, zero, suc, ◌+◌, ◌-◌, ◌*◌, ◌/◌, ◌^◌, ◌≤◌, ◌<◌, ◌≡◌, refl, ap, ◌∙◌, sym, arith,
}
use rs_modbus.Prelude.{List, [], ◌∷◌, ◌++◌, Bool, true, false, ◌⊎◌, some}
use rs_modbus.Prelude.{Bytes, length, take, drop, get_elem?, if◌then◌else◌}
use rs_modbus.Prelude.{
  length-take, length-drop, take-append-drop, min, append_assoc, get_elem?-append_length,
  length-append,
}
use rs_modbus.Prelude.Bits.{bit_or-bit}
use native.Mathlib.Nat.{pow-suc, div-div-eq-div-mul}
use native.Mathlib.Numerals.{add-one}
use rs_modbus.Utils.Coils.{chunks_fuel, chunks, pack_byte, pack_chunks, pack_coils}
use rs_modbus.Utils.Coils.{parse_bits, parse_bytes, parse_coils}

-- The number whose bits, lowest first, are the coils.
abbrev pub bits_value : List Bool → ℕ
bits_value [] = 0
bits_value (v ∷ vs) = (if v then 1 else 0) + 2 * bits_value vs

two_pow_next : (k : ℕ) → 2 ^ (k + 1) ≡ 2 * 2 ^ k
two_pow_next k = ap (λ (t : ℕ). 2 ^ t) (add-one k) ∙ omega (arith, pow-suc 2 k)

pack_byte-bits_value :
    (vs : List Bool) (byte k : ℕ)
    → byte < 2 ^ k
    → pack_byte byte k vs ≡ byte + 2 ^ k * bits_value vs
unfolding pack_byte
pack_byte-bits_value [] byte k h = omega arith
pack_byte-bits_value (true ∷ vs) byte k h = omega (
  arith,
  ap (λ (t : ℕ). pack_byte t (k + 1) vs) (bit_or-bit k byte h),
  pack_byte-bits_value vs (byte + 2 ^ k) (k + 1) (omega (arith, two_pow_next k)),
  ap (λ (t : ℕ). t * bits_value vs) (two_pow_next k),
)
pack_byte-bits_value (false ∷ vs) byte k h = omega (
  arith,
  pack_byte-bits_value vs byte (k + 1) (omega (arith, two_pow_next k)),
  ap (λ (t : ℕ). t * bits_value vs) (two_pow_next k),
)

next_bit : (byte k : ℕ) → byte / 2 ^ (k + 1) ≡ byte / 2 ^ k / 2
next_bit byte k =
    ap (λ (t : ℕ). byte / t) (two_pow_next k ∙ omega arith)
    ∙ sym (div-div-eq-div-mul byte (2 ^ k) 2)

-- The bits from position `k` on are read back, up to the end of the coils or of the byte.
parse_bits-bits_value :
    (more : ℕ) (vs : List Bool) (byte k i n : ℕ)
    → byte / 2 ^ k ≡ bits_value vs
    → length vs ≤ more
    → i + length vs ≤ n
    → (length vs ≡ more) ⊎ (i + length vs ≡ n)
    → parse_bits more byte k i n ≡ vs
unfolding parse_bits
parse_bits-bits_value zero [] byte k i n e le fits full = refl
parse_bits-bits_value zero (v ∷ vs) byte k i n e le fits full = absurd (omega arith)
parse_bits-bits_value (suc more) [] byte k i n e le fits full = ground arith
parse_bits-bits_value (suc more) (true ∷ vs) byte k i n e le fits full = ground (
  arith,
  parse_bits-bits_value more vs byte (k + 1) (i + 1) n (omega (arith, next_bit byte k))
      (omega arith) (omega arith) (omega arith),
)
parse_bits-bits_value (suc more) (false ∷ vs) byte k i n e le fits full = ground (
  arith,
  parse_bits-bits_value more vs byte (k + 1) (i + 1) n (omega (arith, next_bit byte k))
      (omega arith) (omega arith) (omega arith),
)

-- One byte: the coils of a chunk come back from the byte that packs them.
pub parse_bits-pack_byte :
    (vs : List Bool) (i n : ℕ)
    → length vs ≤ 8
    → i + length vs ≤ n
    → (length vs ≡ 8) ⊎ (i + length vs ≡ n)
    → parse_bits 8 (pack_byte 0 0 vs) 0 i n ≡ vs
parse_bits-pack_byte vs i n le fits full =
    parse_bits-bits_value 8 vs (pack_byte 0 0 vs) 0 i n
      (omega (arith, pack_byte-bits_value vs 0 0 (omega arith))) le fits full

-- The packed chunks stand behind `j` others and a count byte.
parse_bytes-pack_chunks :
    (fuel : ℕ) (vs : List Bool) (more j n : ℕ) (front : Bytes)
    → length vs ≤ fuel
    → more ≡ (length vs + 7) / 8
    → length front ≡ 1 + j
    → (length vs ≡ 0) ⊎ (j * 8 + length vs ≡ n)
    → parse_bytes more j (front ++ pack_chunks (chunks_fuel fuel 8 vs)) n ≡ some vs
unfolding parse_bytes pack_chunks chunks_fuel
parse_bytes-pack_chunks fuel [] zero j n front hf hm e full = refl
parse_bytes-pack_chunks fuel [] (suc more) j n front hf hm e full = absurd (omega arith)
parse_bytes-pack_chunks zero (v ∷ vs) more j n front hf hm e full = absurd (omega arith)
parse_bytes-pack_chunks (suc fuel) (v ∷ vs) zero j n front hf hm e full = absurd (omega arith)
parse_bytes-pack_chunks (suc fuel) (v ∷ vs) (suc more) j n front hf hm e full = finish (
    parse_bytes-pack_chunks fuel rest more (j + 1) n (front ++ (byte ∷ [])) (omega (arith, shorter))
      (omega (arith, shorter)) (omega (arith, length-append front (byte ∷ []), e))
      (omega (arith, shorter, full)))
  where
    chunk : List Bool
    chunk = take 8 (v ∷ vs)

    rest : List Bool
    rest = drop 8 (v ∷ vs)

    byte : ℕ
    byte = pack_byte 0 0 chunk

    packed : Bytes
    packed = pack_chunks (chunks_fuel fuel 8 rest)

    shorter : length rest ≡ length (v ∷ vs) - 8
    shorter = length-drop 8 (v ∷ vs)

    width : length chunk ≡ min 8 (length (v ∷ vs))
    width = length-take 8 (v ∷ vs)

    found : get_elem? (front ++ (byte ∷ packed)) (1 + j) ≡ some byte
    found = get_elem?-append_length front packed byte (1 + j) (sym e)

    bits : parse_bits 8 byte 0 (j * 8) n ≡ chunk
    bits =
        parse_bits-pack_byte chunk (j * 8) n (omega (arith, width)) (omega (arith, width, full))
          (omega (arith, width, full))

    finish :
        parse_bytes more (j + 1) ((front ++ (byte ∷ [])) ++ packed) n ≡ some rest
        → parse_bytes (suc more) j (front ++ (byte ∷ packed)) n ≡ some (v ∷ vs)
    finish ih = ground (
      arith,
      found,
      bits,
      ap (λ t. parse_bytes more (j + 1) t n) (sym (append_assoc front (byte ∷ []) packed)) ∙ ih,
      take-append-drop 8 (v ∷ vs),
    )

-- The coils packed for a response are the coils that its reader parses.
pub parse_coils-pack_coils :
    (coils : List Bool) (n : ℕ)
    → n ≡ length coils
    → n + 7 < 65536
    → parse_coils (pack_coils coils n) n ≡ some coils
unfolding parse_coils pack_coils chunks
parse_coils-pack_coils coils n e small =
    parse_bytes-pack_chunks (length coils) coils _ 0 n (_ ∷ []) (omega arith) (omega arith)
      (omega arith) (omega arith)
