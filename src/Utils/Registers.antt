-- ===== src/Utils/Registers.antt =====
-- src/utils.rs: `pack_registers` and `parse_registers`. The u16 product `length * 2` wraps.
use rs_modbus.Prelude.{ℕ, zero, suc, ◌+◌, ◌*◌, ◌≡◌, refl, ap, ◌∙◌, sym, arith}
use rs_modbus.Prelude.{List, [], ◌∷◌, ◌++◌, append_assoc, Option, none, some, Bytes, IsU16, All}
use rs_modbus.Prelude.{
  u8, u16, hi, lo, be16, length, get_elem?, get_elem?-append_length, length-append, be16-hi-lo,
}

-- `to_be_bytes` of each register in turn.
unfoldable pub be_bytes : List ℕ → Bytes
be_bytes [] = []
be_bytes (reg ∷ registers) = hi reg ∷ lo reg ∷ be_bytes registers

unfoldable pub pack_registers : List ℕ → ℕ → Bytes
unfolding be_bytes
pack_registers registers n = u8 (u16 (n * 2)) ∷ be_bytes registers

-- The loop from register `i` on; `none` is the panic of an index out of range.
unfoldable pub parse_from : ℕ → ℕ → Bytes → Option (List ℕ)
parse_from zero i payload = some []
parse_from (suc more) i payload = elim (get_elem? payload (1 + i * 2)) [
  | none ↦ none
  | some a ↦ elim (get_elem? payload (1 + i * 2 + 1)) [
    | none ↦ none
    | some b ↦ elim (parse_from more (i + 1) payload) [
      | none ↦ none
      | some rest ↦ some (be16 a b ∷ rest)
    ]
  ]
]

unfoldable pub parse_registers : Bytes → ℕ → Option (List ℕ)
unfolding parse_from
parse_registers payload n = parse_from n 0 payload

pub length-be_bytes : (regs : List ℕ) → length (be_bytes regs) ≡ 2 * length regs
unfolding be_bytes
length-be_bytes [] = refl
length-be_bytes (r ∷ regs) = omega (arith, length-be_bytes regs)

-- The loop reads registers that stand behind `i` others and a count byte.
pub parse_from-be_bytes :
    (regs : List ℕ) (i : ℕ) (front : Bytes)
    → length front ≡ 1 + i * 2
    → All IsU16 regs
    → parse_from (length regs) i (front ++ be_bytes regs) ≡ some regs
unfolding parse_from be_bytes
parse_from-be_bytes [] i front e h = refl
parse_from-be_bytes (r ∷ regs) i front e (hr, h) = ground (
  arith,
  first,
  second,
  others (
      parse_from-be_bytes regs (i + 1) (front ++ (hi r ∷ lo r ∷ []))
        (omega (arith, length-append front (hi r ∷ lo r ∷ []), e)) h),
  be16-hi-lo r hr,
)
  where
    rest : Bytes
    rest = be_bytes regs

    first : get_elem? (front ++ (hi r ∷ lo r ∷ rest)) (1 + i * 2) ≡ some (hi r)
    first = get_elem?-append_length front (lo r ∷ rest) (hi r) (1 + i * 2) (sym e)

    second : get_elem? (front ++ (hi r ∷ lo r ∷ rest)) (1 + i * 2 + 1) ≡ some (lo r)
    second =
        ap (λ t. get_elem? t (1 + i * 2 + 1)) (sym (append_assoc front (hi r ∷ []) (lo r ∷ rest)))
        ∙ get_elem?-append_length (front ++ (hi r ∷ [])) rest (lo r) (1 + i * 2 + 1)
            (omega (arith, length-append front (hi r ∷ []), e))

    others :
        parse_from (length regs) (i + 1) ((front ++ (hi r ∷ lo r ∷ [])) ++ rest) ≡ some regs
        → parse_from (length regs) (i + 1) (front ++ (hi r ∷ lo r ∷ rest)) ≡ some regs
    others ih =
        ap (parse_from (length regs) (i + 1)) (sym (append_assoc front (hi r ∷ lo r ∷ []) rest))
        ∙ ih

-- The registers packed for a response are the registers that its reader parses.
pub parse_registers-pack_registers :
    (regs : List ℕ) (n : ℕ)
    → n ≡ length regs
    → All IsU16 regs
    → parse_registers (pack_registers regs n) n ≡ some regs
unfolding parse_registers pack_registers
parse_registers-pack_registers regs n e h =
    ap (λ (k : ℕ). parse_from k 0 (u8 (u16 (n * 2)) ∷ be_bytes regs)) e
    ∙ parse_from-be_bytes regs 0 (u8 (u16 (n * 2)) ∷ []) (omega arith) h
