-- ===== src/Tests.antt =====
-- Runs of the model, and the theorems at concrete inputs.
mod Device
mod Wire
mod Framing
mod Serving
mod Sockets
mod Network
mod Peers
mod Stream
mod Ports
mod SerialPort
