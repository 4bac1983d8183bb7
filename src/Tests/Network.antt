-- ===== src/Tests/Network.antt =====
-- The device behind a TCP connection that cuts the request into single bytes.
use rs_modbus.Prelude.{ℕ, ◌≡◌, refl, ap, arith, some, List, [], ◌∷◌, Bytes, ok, concat, append-nil}
use rs_modbus.Prelude.HashMap.{lookup}
use rs_modbus.Types.{Framing}
use rs_modbus.Session.{MasterSession, tid}
use rs_modbus.Slave.Model.{no_intercept}
use rs_modbus.Application.Tcp.Stream.{wire}
use rs_modbus.Master.Requests.{read_holding_registers, registers_response, response_of}
use rs_modbus.Master.Wait.{begin_response, awaiting}
use rs_modbus.Master.Exchange.Network.{Connection, exchange}
use rs_modbus.Master.Exchange.Network.Reads.{exchange_reads}
use rs_modbus.Tests.Device.{device, models, client, in_device}

abbrev singles : Bytes → List Bytes
singles [] = []
singles (b ∷ bytes) = (b ∷ []) ∷ singles bytes

concat-singles : (bytes : Bytes) → concat (singles bytes) ≡ bytes
concat-singles [] = refl
concat-singles (b ∷ bytes) = ap (◌∷◌ b) (concat-singles bytes)

abbrev connection : Connection
connection = record {
  server_response = 1;
  server_end = 2;
  client_response = 3;
  client_end = 4;
  cut_request = singles;
  cut_answer = λ bytes. bytes ∷ [];
}

abbrev registers_at : List ℕ
registers_at = 10 ∷ 20 ∷ 300 ∷ 40 ∷ []

exchange_reads_example :
    (f : Framing) × (session : MasterSession) × ((begin_response wire
        (λ bytes. ok tt)
        (read_holding_registers 1 1 2).adu
        (read_holding_registers 1 1 2).checks
        (record client { written = [] })).0
      ≡ awaiting (tid 7) 0)
    × (exchange connection
          (λ bytes. ok tt)
          (λ sent bytes. ok tt)
          models
          []
          (read_holding_registers 1 1 2)
          client
          ([], [])
          registers_at
        ≡ some (session, registers_at))
    × (session.sent ≡ (0, ok f) ∷ [])
    × (registers_response 2 f ≡ some (response_of f (20 ∷ 300 ∷ [])))
unfolding no_intercept lookup
exchange_reads_example =
    exchange_reads connection (λ bytes. ok tt) (λ sent bytes. ok tt) models [] device client 1 1 2
      (20 ∷ 300 ∷ []) [] [] registers_at registers_at registers_at concat-singles append-nil
      (λ bytes. refl) (λ sent bytes. refl) refl refl refl refl (omega arith) (λ e. omega (arith, e))
      refl (omega arith) (omega arith) (omega arith) in_device refl refl refl
      (omega arith, (omega arith, tt))
