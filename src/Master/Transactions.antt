-- ===== src/Master/Transactions.antt =====
-- src/master.rs: transaction IDs and the answer to a request.
use rs_modbus.Prelude.{
  ℕ, zero, suc, ◌+◌, ◌-◌, ◌%◌, ◌≤◌, ◌<◌, ◌≡◌, ◌≢◌, refl, ap, ◌∙◌, arith, Option, some,
}
use rs_modbus.Prelude.{false, List, [], ◌∷◌, ◌++◌, Bytes, Result, ok, ◌==◌, if◌then◌else◌, ==_self}
use rs_modbus.Errors.{ModbusError}
use rs_modbus.Types.{ApplicationDataUnit, Framing}
use rs_modbus.Application.Role.{ApplicationProtocol}
use rs_modbus.Session.{
  PreCheck, pass, fail, Message, same_key, tid, key_eq, MasterSession, start, handle_frame,
}
use rs_modbus.Session.{run_pre_checks, verdict, key_of}
use rs_modbus.Session.Routing.{handle_frame-start}
use rs_modbus.Master.Wait.{
  ModbusMaster, allocate_tid, begin_response, arm, check_tid, same_tid, awaiting,
}

-- The master after `n` transaction IDs are allocated.
unfoldable pub allocate_many : ℕ → ModbusMaster → ModbusMaster
unfolding allocate_tid
allocate_many zero m = m
allocate_many (suc n) m = allocate_many n (allocate_tid m).1

next_bounds :
    (m : ModbusMaster)
    → 1 ≤ m.next_tid
    → m.next_tid ≤ 65535
    → (1 ≤ (allocate_tid m).1.next_tid)
      × ((allocate_tid m).1.next_tid ≤ 65535)
      × ((allocate_tid m).1.next_tid - 1 ≡ m.next_tid % 65535)
unfolding allocate_tid
next_bounds m low high = ground arith

allocate_many_lem :
    (n : ℕ) (m : ModbusMaster)
    → 1 ≤ m.next_tid
    → m.next_tid ≤ 65535
    → (allocate_many n m).next_tid ≡ (m.next_tid - 1 + n) % 65535 + 1
unfolding allocate_many
allocate_many_lem zero m low high = omega arith
allocate_many_lem (suc n) m low high =
    let (low', high', next) = next_bounds m low high in
    omega (arith, next, allocate_many_lem n (allocate_tid m).1 low' high')

-- For a counter from 1 to 65535, every allocated transaction ID is from 1 to 65535, and two that
-- fewer than 65535 allocations separate are different.
pub allocate_tid-distinct :
    (m : ModbusMaster) (i j : ℕ)
    → 1 ≤ m.next_tid
    → m.next_tid ≤ 65535
    → i < j
    → j < i + 65535
    → (1 ≤ (allocate_tid (allocate_many i m)).0)
      × ((allocate_tid (allocate_many i m)).0 ≤ 65535)
      × ((allocate_tid (allocate_many i m)).0 ≢ (allocate_tid (allocate_many j m)).0)
unfolding allocate_tid
allocate_tid-distinct m i j low high lt near = (
  omega (arith, allocate_many_lem i m low high),
  omega (arith, allocate_many_lem i m low high),
  λ e. omega (arith, e, allocate_many_lem i m low high, allocate_many_lem j m low high),
)

-- What a call on TCP comes to: it has written the request with its transaction ID.
pub begin_tcp :
    (encode : ApplicationDataUnit → Bytes) (write : Bytes → Result ModbusError (Unit {0}))
    (request : ApplicationDataUnit) (checks : List PreCheck) (m : ModbusMaster)
    → m.clean_level ≡ 0
    → m.protocol ≡ ApplicationProtocol.tcp
    → (request.unit == 0) ≡ false
    → write (encode (record request { transaction = some m.next_tid })) ≡ ok tt
    → begin_response encode write request checks m ≡ (
      awaiting (tid m.next_tid) m.session.next_channel,
      record (allocate_tid m).1 {
        session = start (tid m.next_tid) (check_tid m.next_tid ∷ checks) m.session;
        written = m.written ++ (encode (record request { transaction = some m.next_tid }) ∷ []);
      },
    )
unfolding begin_response arm allocate_tid
begin_tcp encode write request checks m opened tcp unicast written =
    rw (opened, tcp, unicast, written)

check_tid-pass :
    (frame : Framing) (t : ℕ) → frame.adu.transaction ≡ some t → check_tid t frame ≡ pass
unfolding check_tid
check_tid-pass frame t same =
    ap (λ o. if same_tid o t then pass else fail ModbusError.invalid_response) same
    ∙ ground (arith, ==_self t)

tid_checks :
    (frame : Framing) (t : ℕ) (checks : List PreCheck)
    → frame.adu.transaction ≡ some t
    → run_pre_checks frame (check_tid t ∷ checks) ≡ run_pre_checks frame checks
unfolding run_pre_checks
tid_checks frame t checks same = rw (check_tid-pass frame t same, run_pre_checks)

-- What `handle_frame` sends for the key of the frame.
matched :
    (t : ℕ) (o : Option ℕ) (x : Message) (rest : List Message)
    → o ≡ some t
    → (if same_key (tid t) (key_of o) then x ∷ [] else rest) ≡ x ∷ []
matched t o x rest same = rw (same, ==_self t)

answered :
    (frame : Framing) (t : ℕ) (checks : List PreCheck) (s : MasterSession)
    → frame.adu.transaction ≡ some t
    → (handle_frame frame (start (tid t) (check_tid t ∷ checks) s)).sent
      ≡ s.sent ++ ((s.next_channel, verdict frame (run_pre_checks frame checks)) ∷ [])
answered frame t checks s same =
    (handle_frame-start (tid t) (check_tid t ∷ checks) frame s).0
    ∙ ap (λ ms. s.sent ++ ms) (matched t frame.adu.transaction _ _ same)
    ∙ ap (λ r. s.sent ++ ((s.next_channel, verdict frame r) ∷ [])) (tid_checks frame t checks same)

-- On TCP, the ID is fresh, so the answer with this ID is the one that the call receives: for an open
-- master, a unit other than 0 and a write that succeeds, the call waits on a new channel, and a
-- frame with its transaction ID is sent to that channel, or the error of the operation's checks is.
pub handle_frame-begin_response :
    (encode : ApplicationDataUnit → Bytes) (write : Bytes → Result ModbusError (Unit {0}))
    (request : ApplicationDataUnit) (checks : List PreCheck) (m : ModbusMaster) (frame : Framing)
    → m.clean_level ≡ 0
    → m.protocol ≡ ApplicationProtocol.tcp
    → request.unit ≢ 0
    → write (encode (record request { transaction = some m.next_tid })) ≡ ok tt
    → frame.adu.transaction ≡ some m.next_tid
    → ((begin_response encode write request checks m).0
        ≡ awaiting (tid m.next_tid) m.session.next_channel)
      × ((handle_frame frame (begin_response encode write request checks m).1.session).sent
          ≡ m.session.sent
            ++ ((m.session.next_channel, verdict frame (run_pre_checks frame checks)) ∷ []))
handle_frame-begin_response encode write request checks m frame opened tcp unicast written same =
    rw
      (
        begin_tcp encode write request checks m opened tcp (ground (arith, unicast)) written,
        answered frame m.next_tid checks m.session same,
      )
      (refl, refl)
