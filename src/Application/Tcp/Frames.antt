-- ===== src/Application/Tcp/Frames.antt =====
-- src/layers/application/tcp.rs: what the extraction loop emits, on any bytes at all.
use rs_modbus.Prelude.{ℕ, zero, suc, ◌≤◌, ◌<◌, ◌≡◌, refl, arith, some, ok, length, take, drop}
use rs_modbus.Prelude.{List, [], ◌∷◌, ◌++◌, Bytes, All, ◌⊎◌, inl, inr, length-take, length-drop}
use rs_modbus.Prelude.{get_or-take}
use rs_modbus.Prelude.HashMap.{HashMap, lookup, nat_eq}
use rs_modbus.Types.{Event, framing, framing_error, ConnectionId, ResponseFn}
use rs_modbus.Application.Tcp.{ExtractResult, frame, insufficient, invalid, try_extract_frame}
use rs_modbus.Application.Tcp.{
  extract_loop, process_data_event, decode_inner, or_default, frame_adu, frame_event, store,
}
use rs_modbus.Errors.{invalid_data}

-- An extracted frame has 8 to 260 bytes, all of them in the buffer.
pub try_extract_frame_bounds :
    (b : Bytes) (n : ℕ) → try_extract_frame b ≡ frame n → (8 ≤ n) × (n ≤ 260) × (n ≤ length b)
unfolding try_extract_frame
try_extract_frame_bounds b n h = ground arith

ExtractResult-cases :
    (r : ExtractResult) → ((n : ℕ) × (r ≡ frame n)) ⊎ (r ≡ insufficient) ⊎ (r ≡ invalid)
ExtractResult-cases (frame n) = inl (n, refl)
ExtractResult-cases insufficient = inr (inl refl)
ExtractResult-cases invalid = inr (inr refl)

-- One round of the loop, by what stands at the front of the buffer.
pub extract_loop_frame :
    (fuel : ℕ) (r : ResponseFn) (c : ConnectionId) (b : Bytes) {n : ℕ} (events : List Event)
    (rest : Bytes)
    → try_extract_frame b ≡ frame n
    → extract_loop fuel r c (drop n b) ≡ some (events, rest)
    → extract_loop (suc fuel) r c b ≡ some (frame_event r c (take n b) ∷ events, rest)
unfolding extract_loop
extract_loop_frame fuel r c b events rest e ih = rw (e, extract_loop) (rw (ih, extract_loop) refl)

pub extract_loop_insufficient :
    (fuel : ℕ) (r : ResponseFn) (c : ConnectionId) (b : Bytes)
    → try_extract_frame b ≡ insufficient
    → extract_loop (suc fuel) r c b ≡ some ([], b)
unfolding extract_loop
extract_loop_insufficient fuel r c b e = rw (e, extract_loop) refl

pub extract_loop_invalid :
    (fuel : ℕ) (r : ResponseFn) (c : ConnectionId) (b : Bytes)
    → try_extract_frame b ≡ invalid
    → extract_loop (suc fuel) r c b ≡ some (framing_error invalid_data ∷ [], [])
unfolding extract_loop
extract_loop_invalid fuel r c b e = rw (e, extract_loop) refl

-- The loop ends within its fuel, and what holds of every event it can emit holds of all it emits.
pub extract_loop_total {ℓ} :
    (P : Event → Type ℓ) (r : ResponseFn) (c : ConnectionId)
    → ((b : Bytes) (n : ℕ) → try_extract_frame b ≡ frame n → P (frame_event r c (take n b)))
    → P (framing_error invalid_data)
    → (fuel : ℕ) (b : Bytes) → length b < fuel
    → (out : List Event × Bytes) × (extract_loop fuel r c b ≡ some out) × All P out.0
extract_loop_total P r c good bad zero b h = absurd (omega arith)
extract_loop_total P r c good bad (suc fuel) b h =
    elim (ExtractResult-cases (try_extract_frame b)) [
      | inl (n, e) ↦
          let (out, ih, all) =
            extract_loop_total P r c good bad fuel (drop n b)
              (omega (arith, length-drop n b, try_extract_frame_bounds b n e)) in
          (
            (frame_event r c (take n b) ∷ out.0, out.1),
            extract_loop_frame fuel r c b out.0 out.1 e ih,
            (good b n e, all),
          )
      | inr (inl e) ↦ (([], b), extract_loop_insufficient fuel r c b e, tt)
      | inr (inr e) ↦
          ((framing_error invalid_data ∷ [], []), extract_loop_invalid fuel r c b e, (bad, tt))
    ]

-- A message that is passed on is decoded from its raw bytes, and answers where they came from.
abbrev pub IsGenuine : ResponseFn → ConnectionId → Event → Type 0
IsGenuine r c (framing f) =
    (decode_inner f.raw ≡ ok f.adu) × (length f.raw ≤ 260) × (f.response ≡ r) × (f.connection ≡ c)
IsGenuine r c (framing_error e) = Unit

frame-IsGenuine :
    (b : Bytes) (n : ℕ)
    → try_extract_frame b ≡ frame n
    → (decode_inner (take n b) ≡ ok (frame_adu (take n b))) × (length (take n b) ≤ 260)
unfolding try_extract_frame decode_inner
frame-IsGenuine b n h = ground (
  arith,
  length-take n b,
  get_or-take n b 2 0,
  get_or-take n b 3 0,
  get_or-take n b 4 0,
  get_or-take n b 5 0,
)

-- `process_data_event` always returns, and whatever bytes arrive, each message that it passes on
-- is a frame of at most 260 bytes which `decode_inner` reads as that message, and carries the
-- connection and the reply closure of the data event.
pub process_data_event-IsGenuine :
    (m : HashMap ConnectionId Bytes) (chunk : Bytes) (r : ResponseFn) (c : ConnectionId)
    → (out : List Event × HashMap ConnectionId Bytes) × (process_data_event m chunk r c ≡ some out)
      × All (IsGenuine r c) out.0
unfolding process_data_event
process_data_event-IsGenuine m chunk r c =
    let b = or_default (lookup c m) ++ chunk in
    let (out, e, all) =
      extract_loop_total (IsGenuine r c) r c genuine tt (suc (length b)) b (omega arith) in
    ((out.0, store c out.1 m), rw (e, process_data_event) refl, all)
  where
    genuine :
        (b : Bytes) (n : ℕ)
        → try_extract_frame b ≡ frame n
        → IsGenuine r c (frame_event r c (take n b))
    genuine b n e =
        unfold frame_event in ((frame-IsGenuine b n e).0, (frame-IsGenuine b n e).1, refl, refl)
