-- ===== src/Utils/Lrc.antt =====
-- src/utils.rs: the longitudinal redundancy check of ASCII frames.
use rs_modbus.Prelude.{
  ◌≢◌, ℕ, ◌+◌, ◌-◌, ◌%◌, ◌<◌, ◌≡◌, ◌↔◌, refl, arith, [], ◌∷◌, ◌++◌, Bytes, IsByte,
}

-- `fold(0u8, wrapping_add)`, from the accumulator on.
pub sum_bytes : ℕ → Bytes → ℕ
sum_bytes acc [] = acc
sum_bytes acc (b ∷ bs) = sum_bytes ((acc + b) % 256) bs

-- `0u8.wrapping_sub(sum)`
unfoldable pub lrc : Bytes → ℕ
unfolding sum_bytes
lrc data' = (256 - sum_bytes 0 data') % 256

pub sum_bytes-append :
    (acc : ℕ) (xs ys : Bytes) → sum_bytes acc (xs ++ ys) ≡ sum_bytes (sum_bytes acc xs) ys
unfolding sum_bytes
sum_bytes-append acc [] ys = refl
sum_bytes-append acc (x ∷ xs) ys = sum_bytes-append ((acc + x) % 256) xs ys

pub sum_bytes-lt : (acc : ℕ) (xs : Bytes) → acc < 256 → sum_bytes acc xs < 256
unfolding sum_bytes
sum_bytes-lt acc [] h = h
sum_bytes-lt acc (x ∷ xs) h = sum_bytes-lt ((acc + x) % 256) xs (omega arith)

pub lrc-IsByte : (xs : Bytes) → IsByte (lrc xs)
unfolding lrc
lrc-IsByte xs = omega arith

-- Different sums stay different over the same bytes.
sum_bytes-injective :
    (xs : Bytes) (s t : ℕ) → s < 256 → t < 256 → sum_bytes s xs ≡ sum_bytes t xs → s ≡ t
unfolding sum_bytes
sum_bytes-injective [] s t hs ht e = e
sum_bytes-injective (x ∷ xs) s t hs ht e =
    omega
      (arith, sum_bytes-injective xs ((s + x) % 256) ((t + x) % 256) (omega arith) (omega arith) e)

-- A message followed by its LRC sums to zero, and no other byte does that.
pub lrc_closes : (xs : Bytes) (b : ℕ) → IsByte b → (sum_bytes 0 (xs ++ (b ∷ [])) ≡ 0) ↔ (b ≡ lrc xs)
unfolding lrc
lrc_closes xs b h = (λ e. omega (arith, total, bounded, e), λ e. omega (arith, total, bounded, e))
  where
    total : sum_bytes 0 (xs ++ (b ∷ [])) ≡ (sum_bytes 0 xs + b) % 256
    total = unfold sum_bytes in sum_bytes-append 0 xs (b ∷ [])

    bounded : sum_bytes 0 xs < 256
    bounded = sum_bytes-lt 0 xs (omega arith)

-- One byte is determined by the LRC and the other bytes.
lrc-injective_one :
    (xs ys : Bytes) (a b : ℕ)
    → IsByte a
    → IsByte b
    → lrc (xs ++ (a ∷ ys)) ≡ lrc (xs ++ (b ∷ ys))
    → a ≡ b
unfolding lrc
lrc-injective_one xs ys a b ha hb e = omega (
  arith,
  sum_bytes-injective ys ((sum_bytes 0 xs + a) % 256) ((sum_bytes 0 xs + b) % 256) (omega arith)
      (omega arith) (omega (arith, e, total a, total b, bounded a, bounded b)),
  sum_bytes-lt 0 xs (omega arith),
)
  where
    total : (c : ℕ) → sum_bytes 0 (xs ++ (c ∷ ys)) ≡ sum_bytes ((sum_bytes 0 xs + c) % 256) ys
    total c = unfold sum_bytes in sum_bytes-append 0 xs (c ∷ ys)

    bounded : (c : ℕ) → sum_bytes 0 (xs ++ (c ∷ ys)) < 256
    bounded c = sum_bytes-lt 0 (xs ++ (c ∷ ys)) (omega arith)

-- Messages of one length that differ in one byte have different LRCs.
lrc_detects_one :
    (xs ys : Bytes) (a b : ℕ)
    → IsByte a
    → IsByte b
    → a ≢ b
    → lrc (xs ++ (a ∷ ys)) ≢ lrc (xs ++ (b ∷ ys))
lrc_detects_one xs ys a b ha hb different = λ e. different (lrc-injective_one xs ys a b ha hb e)
