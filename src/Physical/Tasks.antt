-- ===== src/Physical/Tasks.antt =====
-- src/layers/physical: what the transports share. A task or a call that is under way stands in a
-- list; it is taken out of the list for its next step. A connection id is counted in the events.
use rs_modbus.Prelude.{
  ℕ, ◌+◌, ◌≡◌, arith, List, [], ◌∷◌, ◌++◌, if◌then◌else◌, ◌==◌, length, All, Option, none, some,
}
use rs_modbus.Types.{ConnectionId}

-- `x` is one of the elements, and the others remain.
pub data Taken {ℓ} {A : Type ℓ} (x : A) : List A → List A → Type ℓ where
  here : {xs : List A} → Taken x (x ∷ xs) xs
  there : {y : A} {xs ys : List A} → Taken x xs ys → Taken x (y ∷ xs) (y ∷ ys)

pub length-Taken {ℓ} :
    {A : Type ℓ} (x : A) (xs ys : List A) → Taken x xs ys → length xs ≡ 1 + length ys
length-Taken x xs ys here = omega arith
length-Taken x xs ys (there t) = omega (arith, length-Taken x _ _ t)

pub All-Taken {ℓ κ} :
    {A : Type ℓ} (P : A → Type κ) (x : A) (xs ys : List A)
    → Taken x xs ys
    → All P xs
    → P x × All P ys
All-Taken P x xs ys here h = h
All-Taken P x xs ys (there t) (p, h) = let (q, h') = All-Taken P x _ _ t h in (q, (p, h'))

-- A call goes on, or has ended.
abbrev pub continue_with {ℓ} : {A : Type ℓ} → Option A → List A → List A
continue_with none xs = xs
continue_with (some x) xs = x ∷ xs

unfoldable pub count : ConnectionId → List ConnectionId → ℕ
count c [] = 0
count c (x ∷ xs) = let rest = count c xs in if x == c then 1 + rest else rest

pub count-append :
    (c : ConnectionId) (xs ys : List ConnectionId) → count c (xs ++ ys) ≡ count c xs + count c ys
unfolding count
count-append c [] ys = omega arith
count-append c (x ∷ xs) ys = ground (arith, count-append c xs ys)
