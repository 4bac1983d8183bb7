-- ===== src/Application/Tcp/Codec.antt =====
-- src/layers/application/tcp.rs: `decode` after `encode`, and the transaction IDs that are chosen.
use rs_modbus.Prelude.{ℕ, ◌+◌, ◌<◌, ◌≡◌, arith, some, ok, length, IsU16}
use rs_modbus.Types.{ApplicationDataUnit}
use rs_modbus.Application.Tcp.{encode, decode, pick_tid}

-- A data unit that fits a u16 length is decoded from its encoding, with the transaction ID that
-- `encode` chose.
pub decode-encode :
    (adu : ApplicationDataUnit) (counter : ℕ)
    → IsU16 (pick_tid adu.transaction counter).0
    → length adu.payload + 2 < 65536
    → decode (encode adu counter).0
      ≡ ok (record {
        adu = record adu { transaction = some (pick_tid adu.transaction counter).0 };
        raw = (encode adu counter).0;
      })
unfolding decode encode
decode-encode adu counter ht hl = ground arith
