-- ===== src/Application/Rtu/Genuine.antt =====
-- src/layers/application/rtu.rs: what `flush_pool` sends.
use rs_modbus.Prelude.{
  List, ℕ, zero, suc, ◌-◌, ◌≤◌, ◌≡◌, refl, ap, ◌∙◌, arith, Option, none, some, Bool, true, false,
}
use rs_modbus.Prelude.{[], ◌∷◌, Bytes, All, length, length-take, take, drop}
use rs_modbus.Prelude.{subst, get_or-take, ge→ltb, ==_self, sym, if◌then◌else◌, ok}
use rs_modbus.Prelude.HashMap.{HashMap, lookup, nat_eq}
use rs_modbus.Types.{Event, framing, framing_error, ConnectionId, ResponseFn}
use rs_modbus.Utils.Crc.{crc}
use rs_modbus.Slave.Dispatch.{CustomFunctionCode}
use rs_modbus.Application.Rtu.{frame_crc}
use rs_modbus.Application.Rtu.{RtuBuffer, frame_adu, frame_event, Flushed, starved}
use rs_modbus.Application.Rtu.Loop.{IsFound, Closed, flush_buffer-Ends}
use rs_modbus.Application.Rtu.{flush_found, put_back, flush_pool, decode_inner}

take-take : (n k : ℕ) (b : Bytes) → k ≤ n → take k (take n b) ≡ take k b
take-take n zero b h = refl
take-take zero (suc k) b h = absurd (omega arith)
take-take (suc n) (suc k) [] h = refl
take-take (suc n) (suc k) (x ∷ b) h = ap (λ xs. x ∷ xs) (take-take n k b (omega arith))

decode_inner-good :
    (bytes : Bytes)
    → 4 ≤ length bytes
    → frame_crc bytes (length bytes) ≡ crc (take (length bytes - 2) bytes)
    → decode_inner bytes ≡ ok (frame_adu bytes)
unfolding decode_inner
decode_inner-good bytes long checked =
    rw (ge→ltb (length bytes) 4 long, checked, ==_self (crc (take (length bytes - 2) bytes)))

decode_inner-take :
    (b : Bytes) (skipped n : ℕ)
    → IsFound b skipped n
    → decode_inner (take n b) ≡ ok (frame_adu (take n b))
unfolding IsFound
decode_inner-take b skipped n (e, low, high, fits, checked) =
    decode_inner-good (take n b) (omega (arith, size, low)) (
      ap (frame_crc (take n b)) size
      ∙ same
      ∙ checked
      ∙ ap crc (
          sym (ap (λ (k : ℕ). take (k - 2) (take n b)) size ∙ take-take n (n - 2) b (omega arith))))
  where
    size : length (take n b) ≡ n
    size = omega (arith, length-take n b, fits)

    same : frame_crc (take n b) n ≡ frame_crc b n
    same = omega (
      arith,
      get_or-take n b (n - 1) 0 (omega (arith, low)),
      get_or-take n b (n - 2) 0 (omega (arith, low)),
    )

-- A message that is passed on is decoded from its raw bytes, and answers where they came from.
abbrev pub IsDecoded : ResponseFn → ConnectionId → Event → Type 0
IsDecoded r c (framing f) =
    (decode_inner f.raw ≡ ok f.adu) × (length f.raw ≤ 256) × (f.response ≡ r) × (f.connection ≡ c)
IsDecoded r c (framing_error e) = Unit

module _ (r : ResponseFn) (c : ConnectionId) (strict : Bool) where
  found_event :
      (b : Bytes) (skipped n : ℕ)
      → IsFound b skipped n
      → IsDecoded r c (frame_event r c (take n (drop skipped b)))
  unfolding IsFound
  found_event b skipped n (e, low, high, fits, checked) =
      subst (λ k. IsDecoded r c (frame_event r c (take n (drop k b)))) (sym e)
        (
          decode_inner-take b 0 n (refl, low, high, fits, checked),
          omega (arith, length-take n b, high),
          refl,
          refl,
        )

  sent-branch :
      (b : Bool) (x y : Flushed)
      → All (IsDecoded r c) x.sent
      → All (IsDecoded r c) y.sent
      → All (IsDecoded r c) (if b then x else y).sent
  sent-branch true x y p q = p
  sent-branch false x y p q = q

  IsDecoded-Closed : Closed r c strict (λ f. All (IsDecoded r c) f.sent)
  unfolding starved
  IsDecoded-Closed = record {
    empty = λ b e. tt;
    starves = λ b e. sent-branch strict _ _ (tt, tt) (sent-branch b.t15_expired _ _ (tt, tt) tt);
    bad_crc = λ b e. (tt, tt);
    is_invalid = λ b. (tt, tt);
    sends = λ b skipped n f found p. (found_event b.window skipped n found, p);
  }

found-IsDecoded :
    {S : Type 0} (r : ResponseFn) (c : ConnectionId) (strict is_response : Bool)
    (custom_fcs : HashMap ℕ (CustomFunctionCode S)) (buffers : HashMap ConnectionId RtuBuffer)
    (o : Option RtuBuffer)
    → (out : List Event × HashMap ConnectionId RtuBuffer) × (flush_found r c strict is_response
          custom_fcs buffers o
        ≡ some out)
      × All (IsDecoded r c) out.0
unfolding flush_found
found-IsDecoded r c strict is_response custom_fcs buffers none = (_, refl, tt)
found-IsDecoded r c strict is_response custom_fcs buffers (some b) =
    let (f, e, all) =
      flush_buffer-Ends r c strict is_response custom_fcs (λ f. All (IsDecoded r c) f.sent)
        (IsDecoded-Closed r c strict) b in
    (_, ap (put_back r c strict is_response custom_fcs buffers) e, all)

-- `flush_pool` always returns, and each message that it passes on, from whatever bytes the pool
-- holds, is a frame of at most 256 bytes which `decode_inner` reads as that message (so that its CRC
-- is right), with the connection and the reply closure that were given. This holds for all
-- predictors that the user registers, in strict mode and else, for requests and responses.
pub flush_pool-IsDecoded :
    {S : Type 0} (r : ResponseFn) (c : ConnectionId) (strict is_response : Bool)
    (custom_fcs : HashMap ℕ (CustomFunctionCode S)) (buffers : HashMap ConnectionId RtuBuffer)
    → (out : List Event × HashMap ConnectionId RtuBuffer) × (flush_pool r c strict is_response
          custom_fcs buffers
        ≡ some out)
      × All (IsDecoded r c) out.0
unfolding flush_pool
flush_pool-IsDecoded r c strict is_response custom_fcs buffers =
    found-IsDecoded r c strict is_response custom_fcs buffers (lookup c buffers)
