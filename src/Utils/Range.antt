-- ===== src/Utils/Range.antt =====
-- src/utils.rs: `check_range`, the test of addresses against the configured intervals.
use rs_modbus.Prelude.{ℕ, zero, suc, ◌≤◌, ◌≡◌, ◌↔◌, ◌⊎◌, inl, inr, refl, arith, List, [], ◌∷◌}
use rs_modbus.Prelude.{Bool, true, false, ◌&&◌, leb, if◌then◌else◌, Bool-cases, All}
use rs_modbus.Prelude.{get_elem?, some}

unfoldable pub in_range : ℕ → ℕ × ℕ → Bool
in_range n (min', max') = leb min' n && leb n max'

unfoldable pub all_in_range : List ℕ → ℕ × ℕ → Bool
unfolding in_range
all_in_range [] range = true
all_in_range (v ∷ vs) range = in_range v range && all_in_range vs range

unfoldable pub check_any : List ℕ → List (ℕ × ℕ) → Bool
unfolding all_in_range
check_any value [] = false
check_any value ((min', max') ∷ rest) =
    if leb min' max' && all_in_range value (min', max') then true else check_any value rest

unfoldable pub check_range : List ℕ → List (ℕ × ℕ) → Bool
unfolding check_any
check_range value [] = true
check_range value (r ∷ rest) = check_any value (r ∷ rest)

-- One of the intervals holds all the values.
pub record Covered (value : List ℕ) (range : List (ℕ × ℕ)) : Type 0 where
  pub index : ℕ
  pub min : ℕ
  pub max : ℕ
  pub listed : get_elem? range index ≡ some (min, max)
  pub proper : min ≤ max
  pub within : All (λ v. (min ≤ v) × (v ≤ max)) value

All-in_range→All :
    (vs : List ℕ) (a b : ℕ) → all_in_range vs (a, b) ≡ true → All (λ v. (a ≤ v) × (v ≤ b)) vs
unfolding all_in_range
All-in_range→All [] a b h = tt
All-in_range→All (v ∷ vs) a b h = (ground arith, All-in_range→All vs a b (ground arith))

All→all_in_range :
    (vs : List ℕ) (a b : ℕ) → All (λ v. (a ≤ v) × (v ≤ b)) vs → all_in_range vs (a, b) ≡ true
unfolding all_in_range
All→all_in_range [] a b h = refl
All→all_in_range (v ∷ vs) a b (hv, h) = ground (arith, All→all_in_range vs a b h)

Covered-cons :
    (vs : List ℕ) (r : ℕ × ℕ) (rest : List (ℕ × ℕ)) → Covered vs rest → Covered vs (r ∷ rest)
Covered-cons vs r rest c = record {
  index = suc c.index;
  min = c.min;
  max = c.max;
  listed = c.listed;
  proper = c.proper;
  within = c.within;
}

check_any→Covered :
    (vs : List ℕ) (range : List (ℕ × ℕ)) → check_any vs range ≡ true → Covered vs range
unfolding check_any
check_any→Covered vs [] h = absurd (ground arith)
check_any→Covered vs ((a, b) ∷ rest) h = elim (Bool-cases (leb a b && all_in_range vs (a, b))) [
  | inl e ↦ record {
    index = 0;
    min = a;
    max = b;
    listed = refl;
    proper = ground arith;
    within = All-in_range→All vs a b (ground arith);
  }
  | inr e ↦ Covered-cons vs (a, b) rest (check_any→Covered vs rest (rw e at h))
]

covers :
    (vs : List ℕ) (range : List (ℕ × ℕ)) (i a b : ℕ)
    → get_elem? range i ≡ some (a, b)
    → a ≤ b
    → all_in_range vs (a, b) ≡ true
    → check_any vs range ≡ true
unfolding check_any
covers vs [] i a b e p h = ground arith
covers vs ((c, d) ∷ rest) zero a b e p h = ground arith
covers vs ((c, d) ∷ rest) (suc i) a b e p h = ground (arith, covers vs rest i a b e p h)

-- With intervals configured, a request passes exactly if one interval holds all its addresses;
-- with none configured every request passes.
pub check_range-Covered :
    (vs : List ℕ) (range : List (ℕ × ℕ))
    → (check_range vs range ≡ true) ↔ ((range ≡ []) ⊎ Covered vs range)
unfolding check_range
check_range-Covered vs [] = (λ _. inl refl, λ _. refl)
check_range-Covered vs (r ∷ rest) = (
  λ h. inr (check_any→Covered vs (r ∷ rest) h),
  elim [
    | inl e ↦ ground arith
    | inr c ↦
        covers vs (r ∷ rest) c.index c.min c.max c.listed c.proper
          (All→all_in_range vs c.min c.max c.within)
  ],
)
