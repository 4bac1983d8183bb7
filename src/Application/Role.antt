-- ===== src/Application/Role.antt =====
-- src/layers/application/mod.rs: the role of an application layer, assigned once.
use Prim.Native.String.{String}
use rs_modbus.Prelude.{Option, none, some, ◌≡◌, arith, Result, ok, err}
use rs_modbus.Errors.{ModbusError, invalid_state}

pub data ApplicationRole : Type 0 where
  master slave : ApplicationRole

pub data ApplicationProtocol : Type 0 where
  tcp rtu ascii : ApplicationProtocol

-- The text of the refusal; the source formats the two roles into it.
abbrev already_set : ApplicationRole → ApplicationRole → String
already_set master master = ""
already_set slave slave = ""
already_set master slave = "application layer role already set to Master, cannot change to Slave"
already_set slave master = "application layer role already set to Slave, cannot change to Master"

-- The new role and the result.
pub set_role_impl :
    Option ApplicationRole
    → ApplicationRole
    → Option ApplicationRole × Result ModbusError (Unit {0})
set_role_impl (some master) master = (some master, ok tt)
set_role_impl (some slave) slave = (some slave, ok tt)
set_role_impl (some existing) role =
    (some existing, err (invalid_state (already_set existing role)))
set_role_impl none role = (some role, ok tt)

-- A role, once set, is never changed; setting it is accepted exactly if the layer then has it.
pub set_role_lem :
    (current : Option ApplicationRole) (role existing : ApplicationRole)
    → (current ≡ some existing → (set_role_impl current role).0 ≡ some existing)
      × ((set_role_impl current role).1 ≡ ok tt → (set_role_impl current role).0 ≡ some role)
      × ((set_role_impl current role).0 ≡ some role → (set_role_impl current role).1 ≡ ok tt)
unfolding set_role_impl
set_role_lem none role existing = ground arith
set_role_lem (some master) role existing = ground arith
set_role_lem (some slave) role existing = ground arith
