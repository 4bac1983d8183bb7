-- ===== src/Utils/Predict/Stable.antt =====
-- src/utils.rs: a prediction, once made, does not change when more bytes arrive.
use rs_modbus.Prelude.{
  ℕ, zero, suc, ◌+◌, ◌≡◌, ◌≢◌, refl, arith, [], ◌∷◌, ◌++◌, ◌⊎◌, Bool, true, false,
}
use rs_modbus.Prelude.{none, some, Bytes, byte_at, length-append, get_or-append_left}
use rs_modbus.Prelude.{Option}
use rs_modbus.Utils.Predict.{need_more, unknown, walk_objects}
use rs_modbus.Utils.Predict.{predict_fc43_14_response, predict_rtu_frame_length, is_standard_fc}
use rs_modbus.Utils.Predict.{predict_known, predict_variable, byte_count_at, fixed_length}

walk_objects-append :
    (more offset : ℕ) (buffer rest : Bytes)
    → walk_objects more offset buffer ≢ need_more
    → walk_objects more offset (buffer ++ rest) ≡ walk_objects more offset buffer
unfolding walk_objects
walk_objects-append zero offset buffer rest h = refl
walk_objects-append (suc more) offset buffer rest h = ground (
  arith,
  length-append buffer rest,
  get_or-append_left buffer rest (offset + 1) 0,
  walk_objects-append more (offset + (2 + byte_at buffer (offset + 1))) buffer rest,
)

predict_fc43-append :
    (buffer rest : Bytes)
    → predict_fc43_14_response buffer ≢ need_more
    → predict_fc43_14_response (buffer ++ rest) ≡ predict_fc43_14_response buffer
unfolding predict_fc43_14_response
predict_fc43-append buffer rest h = ground (
  arith,
  length-append buffer rest,
  get_or-append_left buffer rest 2 0,
  get_or-append_left buffer rest 7 0,
  walk_objects-append (byte_at buffer 7) 8 buffer rest,
)

predict_variable-append :
    (r : Bool) (fc : ℕ) (at' : Option (ℕ × ℕ)) (buffer rest : Bytes)
    → predict_variable r fc at' buffer ≢ need_more
    → predict_variable r fc at' (buffer ++ rest) ≡ predict_variable r fc at' buffer
unfolding predict_variable
predict_variable-append r fc (some (offset, extra)) buffer rest h =
    ground (arith, length-append buffer rest, get_or-append_left buffer rest offset 0)
predict_variable-append r fc none buffer rest h = ground (arith, predict_fc43-append buffer rest)

predict_known-append :
    (r : Bool) (fc : ℕ) (n : Option ℕ) (buffer rest : Bytes)
    → predict_known r fc n buffer ≢ need_more
    → predict_known r fc n (buffer ++ rest) ≡ predict_known r fc n buffer
unfolding predict_known
predict_known-append r fc (some n) buffer rest h = refl
predict_known-append r fc none buffer rest h =
    predict_variable-append r fc (byte_count_at r fc) buffer rest h

-- Whatever the predictor answers, other than that it needs more bytes, it answers on every
-- continuation of the buffer.
pub predict-append :
    (buffer rest : Bytes) (r : Bool)
    → predict_rtu_frame_length buffer r ≢ need_more
    → predict_rtu_frame_length (buffer ++ rest) r ≡ predict_rtu_frame_length buffer r
unfolding predict_rtu_frame_length
predict-append [] rest r h = absurd (ground arith)
predict-append (u ∷ []) rest r h = absurd (ground arith)
predict-append (u ∷ fc ∷ b) rest r h =
    ground (arith, predict_known-append r fc (fixed_length r fc) (u ∷ fc ∷ b) rest)

walk_objects-ne-unknown : (more offset : ℕ) (b : Bytes) → walk_objects more offset b ≢ unknown
unfolding walk_objects
walk_objects-ne-unknown zero offset b = λ e. cc
walk_objects-ne-unknown (suc more) offset b =
    ground (arith, walk_objects-ne-unknown more (offset + (2 + byte_at b (offset + 1))) b)

-- A function code without a built-in predictor is unknown as soon as it has been read.
pub predict-unknown :
    (u fc : ℕ) (b : Bytes) (r : Bool)
    → is_standard_fc fc r ≡ false
    → predict_rtu_frame_length (u ∷ fc ∷ b) r ≡ unknown
unfolding predict_rtu_frame_length is_standard_fc
predict-unknown u fc b true h = ground arith
predict-unknown u fc b false h = ground arith

-- Other than for a device-identification response with another MEI type, a function code with a
-- built-in predictor is never unknown.
pub predict-ne-unknown :
    (u fc mei : ℕ) (b : Bytes) (r : Bool)
    → is_standard_fc fc r ≡ true
    → (r ≡ false) ⊎ (fc ≢ 0x2b) ⊎ (mei ≡ 0x0e)
    → predict_rtu_frame_length (u ∷ fc ∷ mei ∷ b) r ≢ unknown
unfolding predict_rtu_frame_length is_standard_fc
predict-ne-unknown u fc mei b true h k =
    ground (arith, walk_objects-ne-unknown (byte_at (u ∷ fc ∷ mei ∷ b) 7) 8 (u ∷ fc ∷ mei ∷ b))
predict-ne-unknown u fc mei b false h k = ground arith
