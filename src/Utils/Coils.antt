-- ===== src/Utils/Coils.antt =====
-- src/utils.rs: `pack_coils` and `parse_coils`. The u16 sum `length + 7` wraps.
pub mod RoundTrip
use rs_modbus.Prelude.{ℕ, zero, suc, ◌+◌, ◌*◌, ◌/◌, ◌%◌, ◌^◌, List, [], ◌∷◌, ◌++◌, Bool}
use rs_modbus.Prelude.{Option, none, some, Bytes, u8, u16, length, take, drop, get_elem?, bit_or}
use rs_modbus.Prelude.{◌==◌, leb, if◌then◌else◌}

-- `slice.chunks(n)`; each chunk takes an element, so the length is enough fuel.
pub chunks_fuel {ℓ} : {A : Type ℓ} → ℕ → ℕ → List A → List (List A)
chunks_fuel zero n xs = []
chunks_fuel (suc fuel) n [] = []
chunks_fuel (suc fuel) n (x ∷ xs) = take n (x ∷ xs) ∷ chunks_fuel fuel n (drop n (x ∷ xs))

unfoldable pub chunks {ℓ} : {A : Type ℓ} → ℕ → List A → List (List A)
unfolding chunks_fuel
chunks n xs = chunks_fuel (length xs) n xs

-- The loop `byte |= 1 << bit_idx` over one chunk.
unfoldable pub pack_byte : ℕ → ℕ → List Bool → ℕ
pack_byte byte bit_idx [] = byte
pack_byte byte bit_idx (v ∷ vs) =
    pack_byte (if v then bit_or byte (2 ^ bit_idx) else byte) (bit_idx + 1) vs

unfoldable pub pack_chunks : List (List Bool) → Bytes
unfolding pack_byte
pack_chunks [] = []
pack_chunks (chunk ∷ rest) = pack_byte 0 0 chunk ∷ pack_chunks rest

unfoldable pub pack_coils : List Bool → ℕ → Bytes
unfolding pack_chunks chunks
pack_coils coils n = u8 (u16 (n + 7) / 8) ∷ pack_chunks (chunks 8 coils)

-- The inner loop over the bits of one byte, which ends at coil `n`.
unfoldable pub parse_bits : ℕ → ℕ → ℕ → ℕ → ℕ → List Bool
parse_bits zero byte bit_idx i n = []
parse_bits (suc more) byte bit_idx i n =
    let rest = parse_bits more byte (bit_idx + 1) (i + 1) n in
    if leb n i then [] else (byte / 2 ^ bit_idx % 2 == 1) ∷ rest

-- The outer loop; `none` is the panic of an index out of range.
unfoldable pub parse_bytes : ℕ → ℕ → Bytes → ℕ → Option (List Bool)
unfolding parse_bits
parse_bytes zero byte_idx payload n = some []
parse_bytes (suc more) byte_idx payload n = elim (get_elem? payload (1 + byte_idx)) [
  | none ↦ none
  | some byte ↦ elim (parse_bytes more (byte_idx + 1) payload n) [
    | none ↦ none
    | some rest ↦ some (parse_bits 8 byte 0 (byte_idx * 8) n ++ rest)
  ]
]

unfoldable pub parse_coils : Bytes → ℕ → Option (List Bool)
unfolding parse_bytes
parse_coils payload n = parse_bytes (u16 (n + 7) / 8) 0 payload n
