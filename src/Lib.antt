-- ===== src/Lib.antt =====
-- A model of rs-modbus, a Modbus library with TCP, RTU and ASCII framing, a client and a server.
--
-- The parts and the files that model them:
--   src/error.rs                   Errors, Errors/Codes
--   src/vars.rs                    Vars (the constants that are used)
--   src/utils.rs                   Utils/Crc, Utils/Lrc, Utils/Range, Utils/Coils, Utils/Registers,
--                                  Utils/Predict (predict_rtu_frame_length)
--   src/types.rs                   Types
--   src/layers/application/mod.rs  Types (Framing), Application/Role
--   src/layers/application/tcp.rs  Application/Tcp
--   src/layers/application/rtu.rs  Application/Rtu (frames and the pool), Application/Rtu/Events
--                                  (chunks, timers and closes)
--   src/layers/application/ascii.rs  Application/Ascii
--   src/layers/physical/tcp_server.rs  Physical/TcpServer
--   src/layers/physical/tcp_client.rs  Physical/TcpClient
--   src/layers/physical/udp.rs     Physical/Udp (the peers), Physical/Udp/Address, Physical/Udp/Steps
--   src/layers/physical/serial.rs  Physical/Serial
--   src/layers/physical/mod.rs     Slave/Lifecycle (PhysicalLayer, what the server calls)
--   src/master_session.rs          Session
--   src/master.rs                  Master/Requests (what is asked and read), Master/Wait (the state)
--   src/slave.rs                   Slave/Model (the trait of a device), Slave/Reply, Slave/Reads,
--                                  Slave/Writes, Slave/Ids (FC17, FC43/14), Slave/Dispatch,
--                                  Slave/Queues (the queues and their drain tasks),
--                                  Slave/AddressLock (with_address_lock), Slave/Lifecycle (open,
--                                  close, destroy)
-- The other modules hold proofs: of the CRC in Utils/Crc, of the framing in Application/Tcp,
-- Application/Rtu and Application/Ascii, of the server in Slave/Dispatch/Replies, Slave/Queues,
-- Slave/AddressLock and Slave/Lifecycle, of the transports in the modules below each of them, of the
-- waiters in Session/Routing and Session/Once, of the client in Master/Transactions, Master/Exchange
-- (client and server together, in Master/Exchange/Network over a TCP connection) and Master/Total.
-- Physical/Tasks has what the transports share. Tests has runs and the theorems at concrete inputs.
--
-- How the parts interact: bytes that arrive go to the application layer of a connection
-- (`process_data_event`), which passes on messages. On the server side `process_frame` hands a
-- message to the device model of its unit, or to all models for unit 0, and writes the reply. On
-- the client side `begin_response` (the first half of `wait_response`) arms a waiter and writes the
-- request, `handle_frame` of the session resolves the waiter, and `end_response` (the second half)
-- returns what came.
--
-- How the code is read. Definitions keep the source's names; the field `data` is `payload`, and
-- `open` is `open_master` and `open_slave`, `remove` of a server is `remove_unit`. Integers are
-- natural numbers; a cast and an arithmetic operation on a u8 or u16 is reduced by `%` where it can
-- leave the type, which is the behaviour without overflow checks. Bytes and registers are not
-- bounded by their type: theorems that need it say `IsByte` or `IsU16`. An index that a guard has
-- checked is read by `byte_at`; where no guard stands before it, the panic is `none`. A `HashMap`
-- is an association list. State that is behind a lock is passed on explicitly, one call at a time.
-- The state of the device models is one type `S`, which each of their methods may read and change;
-- models, custom function codes, `encode` of the layer and the outcomes of writes are arguments.
-- The frames that a handler writes are kept in order in `World.sent`. A oneshot channel is a
-- number; what is sent is kept in `MasterSession.sent`, and the bytes that a client writes in
-- `ModbusMaster.written`. The pool of the RTU layer is kept as the bytes between its two indices.
--
-- Concurrency. The drain tasks of the server, the calls of `with_address_lock` and the tasks and
-- calls of the transports are step relations: a step is what a task does between two awaits (for
-- the serial layer, one access to what is shared), and the steps of all tasks interleave in any
-- order. In the transports each call of `open` and `close` is a value that says where the call
-- stands, and any number of them can be under way. The server's `close` and `destroy` and the tasks
-- that listen for frames are steps in Slave/Lifecycle/Quiet; Slave/Lifecycle has the whole calls too,
-- which run one after the other in Slave/Lifecycle/Reopened. A mutex of the address locks is known by
-- its address and a serial number, so that one that is made again after the map was cleared is
-- another one. The timers of the RTU layer are flags of a buffer; that one fires is an event like
-- the arrival of a chunk.
--
-- Fuel. The loops that extract frames take fuel, one more than the bytes held; every round takes at
-- least one byte off. The loop of the RTU layer over a chunk takes two rounds for each byte and two
-- more: a round copies bytes, or makes room so that the next one does. The theorems on these loops
-- prove that the fuel is enough. `chunks` takes the length of its list.
--
-- Not modelled: what the sockets and the serial line do (it is an argument or a choice of a step),
-- the options of the serial port, the write and error events of the transports, the data events of
-- the TCP server and the bytes of a UDP datagram, the spawning and aborting of tasks where no state depends on it, timeouts other
-- than as an outcome of the wait, the concurrent mode of the server, the queue lock of the client,
-- the floating point intervals of the RTU layer, and the texts of the errors' display.
mod Prelude
pub mod Errors
pub mod Vars
pub mod Utils
pub mod Types
pub mod Application
pub mod Physical
pub mod Slave
pub mod Session
pub mod Master
mod Tests
