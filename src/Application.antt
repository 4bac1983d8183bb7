-- ===== src/Application.antt =====
-- src/layers/application: the three wire protocols and the role of a layer.
pub mod Role
pub mod Tcp
pub mod Rtu
pub mod Ascii
