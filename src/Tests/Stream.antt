-- ===== src/Tests/Stream.antt =====
-- RTU requests that arrive in pieces, over a network and over a serial line.
use rs_modbus.Prelude.{
  ℕ, ◌≡◌, ◌≢◌, refl, arith, none, some, false, List, [], ◌∷◌, ◌++◌, map, append-nil, ap, ap, sym,
  ◌∙◌, append_assoc, take-append-drop, take, drop, concat, Bytes,
}
use rs_modbus.Prelude.HashMap.{lookup, nat_eq}
use rs_modbus.Types.{ApplicationDataUnit, ConnectionId}
use rs_modbus.Application.Rtu.Stream.Flush.{wires}
use rs_modbus.Application.Rtu.Stream.Transmissions.{transmissions, react_all-transmissions}
use rs_modbus.Utils.Predict.{predict_rtu_frame_length, predict_known, fixed_length}
use rs_modbus.Application.Rtu.{encode}
use rs_modbus.Application.Rtu.Events.{Buffers, react_all}
use rs_modbus.Application.Rtu.Stream.{Sized}
use rs_modbus.Application.Rtu.Stream.Framed.{arrivals, message, react_all-wires}

abbrev request : ApplicationDataUnit
request = record { transaction = none; unit = 1; fc = 3; payload = 0 ∷ 1 ∷ 0 ∷ 1 ∷ [] }

sized : Sized {S = ℕ} false [] request
unfolding lookup predict_rtu_frame_length predict_known fixed_length encode
sized = record { builtin = refl; sized = refl; fits = omega arith }

abbrev chunks : List Bytes
chunks = take 3 (encode request) ∷ drop 3 (encode request) ∷ []

chunks_whole : concat chunks ≡ wires (request ∷ [])
chunks_whole =
    sym (append_assoc (take 3 (encode request)) (drop 3 (encode request)) [])
    ∙ ap (λ w. w ++ []) (take-append-drop 3 (encode request))

react_all-wires_example :
    (after : Buffers) × (react_all {S = ℕ} 0 0 false [] (arrivals 5 9 chunks) []
      ≡ some (map (message 5 9) (request ∷ []), after))
    × (lookup 9 after ≡ none)
    × ((j : ConnectionId) → j ≢ 9 → lookup j after ≡ lookup j [])
unfolding lookup
react_all-wires_example =
    react_all-wires {S = ℕ} 0 false [] 5 9 chunks [] (request ∷ []) refl (sized, tt) chunks_whole

-- On a serial line, two of these requests, each in two pieces.
chunks_cut : concat chunks ≡ encode request
chunks_cut = chunks_whole ∙ append-nil (encode request)

react_all-transmissions_example :
    (after : Buffers) × (react_all {S = ℕ} 4 2 false []
        (transmissions 5 9 (chunks ∷ chunks ∷ []))
        []
      ≡ some (map (message 5 9) (request ∷ request ∷ []), after))
    × (lookup 9 after ≡ none)
    × ((j : ConnectionId) → j ≢ 9 → lookup j after ≡ lookup j [])
unfolding lookup
react_all-transmissions_example =
    react_all-transmissions {S = ℕ} 4 2 false [] 5 9 (chunks ∷ chunks ∷ []) []
      (request ∷ request ∷ []) (omega arith) refl (sized, (sized, tt))
      (omega arith, (omega arith, tt)) (ap (λ w. w ∷ w ∷ []) chunks_cut)
