-- ===== src/Prelude/Words.antt =====
-- Bytes and big-endian or little-endian 16-bit words, as in `to_be_bytes` and `from_be_bytes`.
use Prim.Native.Nat.{ℕ, ◌+◌, ◌*◌, ◌/◌, ◌%◌, ◌<◌}
use mathlib.Core.Path.{◌≡◌}
use mathlib.Core.List.{List, [], ◌∷◌}
use native.Mathlib.Omega.{arith}
use rs_modbus.Prelude.Lists.{get_or}

abbrev pub Bytes : Type 0
Bytes = List ℕ

abbrev pub IsByte : ℕ → Type 0
IsByte b = b < 256

abbrev pub IsU16 : ℕ → Type 0
IsU16 w = w < 65536

-- `data[i]`, at an index that the code has checked to be in range.
abbrev pub byte_at : Bytes → ℕ → ℕ
byte_at xs i = get_or xs i 0

-- `as u8` and `as u16`, and the wrap of the arithmetic on such values.
abbrev pub u8 : ℕ → ℕ
u8 n = n % 256

abbrev pub u16 : ℕ → ℕ
u16 n = n % 65536

abbrev pub hi : ℕ → ℕ
hi w = w / 256 % 256

abbrev pub lo : ℕ → ℕ
lo w = w % 256

-- `u16::from_be_bytes([a, b])` and `u16::from_le_bytes([b, a])`.
abbrev pub be16 : ℕ → ℕ → ℕ
be16 a b = a * 256 + b

abbrev pub to_be_bytes : ℕ → Bytes
to_be_bytes w = hi w ∷ lo w ∷ []

abbrev pub to_le_bytes : ℕ → Bytes
to_le_bytes w = lo w ∷ hi w ∷ []

pub be16-hi-lo : (w : ℕ) → IsU16 w → be16 (hi w) (lo w) ≡ w
be16-hi-lo w h = omega arith
