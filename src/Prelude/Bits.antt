-- ===== src/Prelude/Bits.antt =====
-- Laws of `bit_xor` at variables, and tables over a small range checked by evaluation.
use Prim.Native.Nat.{
  ℕ, zero, suc, ◌+◌, ◌*◌, ◌/◌, ◌%◌, ◌≤◌, ◌<◌, ◌^◌, differ, digits, max, bit_xor, bit_xor-bitwise,
  bit_or, bit_or-bitwise,
}
use mathlib.Core.Path.{◌≡◌, refl, sym, ap, ◌∙◌}
use mathlib.Core.Bool.{Bool, true, ◌&&◌}
use mathlib.Core.WellFounded.{Acc, WellFounded, induction}
use native.Mathlib.Omega.{arith}
use native.Mathlib.Nat.{pow-suc}
use rs_modbus.Prelude.Tests.{◌==◌, ==_iff}

Acc-below : (k n : ℕ) → n < k → Acc ◌<◌ n
Acc-below zero n h = absurd (omega arith)
Acc-below (suc k) n h = Acc.intro n (λ m hm. Acc-below k m (omega arith))

pub lt_wf : WellFounded ◌<◌
lt_wf = record { apply = λ n. Acc-below (suc n) n (omega arith) }

-- `p` holds of every number below `n`.
unfoldable pub all_below : ℕ → (ℕ → Bool) → Bool
all_below zero p = true
all_below (suc n) p = p n && all_below n p

pub all_below_sound : (p : ℕ → Bool) (x n : ℕ) → x < n → all_below n p ≡ true → p x ≡ true
unfolding all_below
all_below_sound p x (suc n) lt checked = ground (arith, checked, all_below_sound p x n)
all_below_sound p x zero lt checked = absurd (omega arith)

-- Two functions that agree at every number below `n`.
pub agree_below :
    (n : ℕ) (f g : ℕ → ℕ) (x : ℕ) → all_below n (λ y. f y == g y) ≡ true → x < n → f x ≡ g x
agree_below n f g x h lt = (==_iff (f x) (g x)).0 (all_below_sound (λ y. f y == g y) x n lt h)

-- The recursion on digits that the native operations stand for, with the fuel dropped.
module _ (last : ℕ → ℕ) (combine : ℕ → ℕ → ℕ) where
  digits-zero : (fuel b : ℕ) → digits last combine fuel 0 b ≡ last b
  digits-zero zero b = refl
  digits-zero (suc fuel) b = refl

  enough_fuel :
      (a b k l : ℕ) → a ≤ k → a ≤ l → digits last combine k a b ≡ digits last combine l a b
  enough_fuel zero b k l hk hl = digits-zero k b ∙ sym (digits-zero l b)
  enough_fuel (suc a) b (suc k) (suc l) hk hl =
      rw (enough_fuel (suc a / 2) (b / 2) k l (omega arith) (omega arith))
  enough_fuel (suc a) b zero l hk hl = absurd (omega arith)
  enough_fuel (suc a) b (suc k) zero hk hl = absurd (omega arith)

-- Digit by digit, the exclusive or is the sum without carry.
differ_one : (y : ℕ) → y < 2 → differ 1 y ≡ (1 + y) % 2
differ_one (suc (suc y)) q = absurd (omega arith)
differ_one (suc zero) q = refl
differ_one zero q = refl

differ_mod : (x y : ℕ) → x < 2 → y < 2 → differ x y ≡ (x + y) % 2
differ_mod (suc (suc x)) y p q = absurd (omega arith)
differ_mod (suc zero) y p q = differ_one y q
differ_mod zero y p q = omega arith

pub zero-bit_xor : (b : ℕ) → bit_xor 0 b ≡ b
zero-bit_xor b = bit_xor-bitwise 0 b

bit_xor_digit : (a b : ℕ) → bit_xor a b ≡ bit_xor (a / 2) (b / 2) * 2 + differ (a % 2) (b % 2)
bit_xor_digit zero b = omega (arith, zero-bit_xor b, zero-bit_xor (b / 2), differ_mod 0 (b % 2))
bit_xor_digit (suc a) b = omega (
  arith,
  bit_xor-bitwise (suc a) b,
  bit_xor-bitwise (suc a / 2) (b / 2),
  enough_fuel (λ y. y) differ (suc a / 2) (b / 2) a (suc a / 2) (omega arith) (omega arith),
)

pub bit_xor_step : (a b : ℕ) → bit_xor a b ≡ bit_xor (a / 2) (b / 2) * 2 + (a + b) % 2
bit_xor_step a b =
    omega (arith, bit_xor_digit a b, differ_mod (a % 2) (b % 2) (omega arith) (omega arith))

pub bit_xor-half : (a b : ℕ) → bit_xor a b / 2 ≡ bit_xor (a / 2) (b / 2)
bit_xor-half a b = omega (arith, bit_xor_step a b)

pub bit_xor-parity : (a b : ℕ) → bit_xor a b % 2 ≡ (a + b) % 2
bit_xor-parity a b = omega (arith, bit_xor_step a b)

-- A property that passes from the halves to the whole, with zero on the left, holds of all.
xor_comm_step :
    (a b : ℕ) → bit_xor (a / 2) (b / 2) ≡ bit_xor (b / 2) (a / 2) → bit_xor a b ≡ bit_xor b a
xor_comm_step a b h = omega (arith, bit_xor_step a b, bit_xor_step b a)

pub bit_xor_self : (a : ℕ) → bit_xor a a ≡ 0
bit_xor_self a = induction lt_wf {C = λ a. bit_xor a a ≡ 0} a step
  where
    step : (n : ℕ) → ((m : ℕ) → m < n → bit_xor m m ≡ 0) → bit_xor n n ≡ 0
    step zero ih = refl
    step (suc n) ih = omega (arith, bit_xor_step (suc n) (suc n), ih (suc n / 2) (omega arith))

pub bit_xor-zero : (a : ℕ) → bit_xor a 0 ≡ a
bit_xor-zero a = induction lt_wf {C = λ a. bit_xor a 0 ≡ a} a step
  where
    step : (n : ℕ) → ((m : ℕ) → m < n → bit_xor m 0 ≡ m) → bit_xor n 0 ≡ n
    step zero ih = refl
    step (suc n) ih = omega (arith, bit_xor_step (suc n) 0, ih (suc n / 2) (omega arith))

pub bit_xor_comm : (a b : ℕ) → bit_xor a b ≡ bit_xor b a
bit_xor_comm a = induction lt_wf {C = λ a. (b : ℕ) → bit_xor a b ≡ bit_xor b a} a step
  where
    step :
        (n : ℕ)
        → ((m : ℕ) → m < n → (b : ℕ) → bit_xor m b ≡ bit_xor b m)
        → (b : ℕ) → bit_xor n b ≡ bit_xor b n
    step zero ih b = zero-bit_xor b ∙ sym (bit_xor-zero b)
    step (suc n) ih b = xor_comm_step (suc n) b (ih (suc n / 2) (omega arith) (b / 2))

xor_assoc_step :
    (a b c : ℕ)
    → bit_xor (bit_xor (a / 2) (b / 2)) (c / 2) ≡ bit_xor (a / 2) (bit_xor (b / 2) (c / 2))
    → bit_xor (bit_xor a b) c ≡ bit_xor a (bit_xor b c)
xor_assoc_step a b c h = omega (
  arith,
  bit_xor_step (bit_xor a b) c,
  bit_xor_step a (bit_xor b c),
  bit_xor-parity a b,
  bit_xor-parity b c,
  ap (λ (t : ℕ). bit_xor t (c / 2)) (bit_xor-half a b),
  ap (λ (t : ℕ). bit_xor (a / 2) t) (bit_xor-half b c),
)

pub bit_xor_assoc : (a b c : ℕ) → bit_xor (bit_xor a b) c ≡ bit_xor a (bit_xor b c)
bit_xor_assoc a =
    induction lt_wf {C = λ a. (b c : ℕ) → bit_xor (bit_xor a b) c ≡ bit_xor a (bit_xor b c)} a step
  where
    step :
        (n : ℕ)
        → ((m : ℕ) → m < n → (b c : ℕ) → bit_xor (bit_xor m b) c ≡ bit_xor m (bit_xor b c))
        → (b c : ℕ) → bit_xor (bit_xor n b) c ≡ bit_xor n (bit_xor b c)
    step zero ih b c =
        ap (λ (t : ℕ). bit_xor t c) (zero-bit_xor b) ∙ sym (zero-bit_xor (bit_xor b c))
    step (suc n) ih b c = xor_assoc_step (suc n) b c (ih (suc n / 2) (omega arith) (b / 2) (c / 2))

-- The exclusive or of two numbers of `k` bits has `k` bits.
pub bit_xor-lt : (k a b : ℕ) → a < 2 ^ k → b < 2 ^ k → bit_xor a b < 2 ^ k
bit_xor-lt zero a b p q =
    let e : a ≡ 0 = omega arith in let e' : b ≡ 0 = omega arith in rw (e, e') (omega arith)
bit_xor-lt (suc k) a b p q =
    omega (arith, bit_xor_step a b, bit_xor-lt k (a / 2) (b / 2) (omega arith) (omega arith))

mul-two_pow : (q k : ℕ) → q * 2 ^ suc k ≡ 2 * (q * 2 ^ k)
mul-two_pow q k = omega (arith, ap (λ (t : ℕ). q * t) (pow-suc 2 k))

-- The exclusive or works on a high field and a low field of `k` bits by themselves.
pub bit_xor_fields :
    (k p q x y : ℕ)
    → x < 2 ^ k
    → y < 2 ^ k
    → bit_xor (p * 2 ^ k + x) (q * 2 ^ k + y) ≡ bit_xor p q * 2 ^ k + bit_xor x y
bit_xor_fields zero p q x y hx hy =
    let ex : x ≡ 0 = omega arith in
    let ey : y ≡ 0 = omega arith in rw (ex, ey) (ground (arith, zero-bit_xor 0))
bit_xor_fields (suc k) p q x y hx hy = ground (
  arith,
  bit_xor_step (p * 2 ^ suc k + x) (q * 2 ^ suc k + y),
  bit_xor_step x y,
  mul-two_pow p k,
  mul-two_pow q k,
  mul-two_pow (bit_xor p q) k,
  bit_xor_fields k p q (x / 2) (y / 2) (omega arith) (omega arith),
)

pub bit_xor-div_256 : (a b : ℕ) → bit_xor a b / 256 ≡ bit_xor (a / 256) (b / 256)
bit_xor-div_256 a b = ground (
  arith,
  bit_xor_fields 8 (a / 256) (b / 256) (a % 256) (b % 256) (omega arith) (omega arith),
  bit_xor-lt 8 (a % 256) (b % 256) (omega arith) (omega arith),
)

pub bit_xor-mod_256 : (a b : ℕ) → bit_xor a b % 256 ≡ bit_xor (a % 256) (b % 256)
bit_xor-mod_256 a b = ground (
  arith,
  bit_xor_fields 8 (a / 256) (b / 256) (a % 256) (b % 256) (omega arith) (omega arith),
  bit_xor-lt 8 (a % 256) (b % 256) (omega arith) (omega arith),
)

-- A number is cancelled on either side.
pub bit_xor-cancel_left : (a b c : ℕ) → bit_xor a b ≡ bit_xor a c → b ≡ c
bit_xor-cancel_left a b c h = sym (unxor b) ∙ ap (λ (t : ℕ). bit_xor a t) h ∙ unxor c
  where
    unxor : (x : ℕ) → bit_xor a (bit_xor a x) ≡ x
    unxor x =
        sym (bit_xor_assoc a a x) ∙ ap (λ (t : ℕ). bit_xor t x) (bit_xor_self a) ∙ zero-bit_xor x

pub bit_xor-cancel_right : (a b c : ℕ) → bit_xor b a ≡ bit_xor c a → b ≡ c
bit_xor-cancel_right a b c h = bit_xor-cancel_left a b c (bit_xor_comm a b ∙ h ∙ bit_xor_comm c a)

-- The laws of `bit_or` for setting one bit.
pub zero-bit_or : (b : ℕ) → bit_or 0 b ≡ b
zero-bit_or b = bit_or-bitwise 0 b

pub bit_or_step : (a b : ℕ) → bit_or a b ≡ bit_or (a / 2) (b / 2) * 2 + max (a % 2) (b % 2)
bit_or_step zero b = omega (arith, zero-bit_or b, zero-bit_or (b / 2))
bit_or_step (suc a) b = omega (
  arith,
  bit_or-bitwise (suc a) b,
  bit_or-bitwise (suc a / 2) (b / 2),
  enough_fuel (λ y. y) max (suc a / 2) (b / 2) a (suc a / 2) (omega arith) (omega arith),
)

half_power : (k : ℕ) → 2 ^ suc k / 2 ≡ 2 ^ k
half_power k = omega (arith, pow-suc 2 k)

-- Setting bit `k` of a number of `k` bits adds it.
pub bit_or-bit : (k r : ℕ) → r < 2 ^ k → bit_or r (2 ^ k) ≡ r + 2 ^ k
bit_or-bit zero r h = let e : r ≡ 0 = omega arith in rw e refl
bit_or-bit (suc k) r h = omega (
  arith,
  bit_or_step r (2 ^ suc k),
  pow-suc 2 k,
  ap (λ (t : ℕ). bit_or (r / 2) t) (half_power k),
  bit_or-bit k (r / 2) (omega arith),
)
