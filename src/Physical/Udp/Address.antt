-- ===== src/Physical/Udp/Address.antt =====
-- src/layers/physical/udp.rs: the addresses of the peers, and which of them a client accepts.
use rs_modbus.Prelude.{
  ℕ, ◌≡◌, Option, none, some, Bool, true, false, not, ◌&&◌, if◌then◌else◌, ◌==◌, ◌↔◌, arith, ==_iff,
}
use rs_modbus.Prelude.HashMap.{Eq}

-- `std::net`: an address is a number of 32 or of 128 bits.
pub data IpAddr : Type 0 where
  v4 v6 : ℕ → IpAddr

abbrev pub same_ip : IpAddr → IpAddr → Bool
same_ip (v4 a) (v4 b) = a == b
same_ip (v4 a) (v6 b) = false
same_ip (v6 a) (v4 b) = false
same_ip (v6 a) (v6 b) = a == b

pub same_ip_iff : (a b : IpAddr) → (same_ip a b ≡ true) ↔ (a ≡ b)
same_ip_iff (v4 a) (v4 b) = ground (arith, ==_iff a b)
same_ip_iff (v4 a) (v6 b) = ground arith
same_ip_iff (v6 a) (v4 b) = ground arith
same_ip_iff (v6 a) (v6 b) = ground (arith, ==_iff a b)

abbrev pub is_unspecified : IpAddr → Bool
is_unspecified (v4 a) = a == 0
is_unspecified (v6 a) = a == 0

-- `scope` stands for the flow information and the scope of an IPv6 address.
pub record SocketAddr : Type 0 where
  pub ip : IpAddr
  pub port : ℕ
  pub scope : ℕ

abbrev pub same_addr : SocketAddr → SocketAddr → Bool
same_addr a b = same_ip a.ip b.ip && a.port == b.port && a.scope == b.scope

pub same_addr_iff : (a b : SocketAddr) → (same_addr a b ≡ true) ↔ (a ≡ b)
same_addr_iff a b =
    ground (arith, same_ip_iff a.ip b.ip, ==_iff a.port b.port, ==_iff a.scope b.scope)

instance abbrev pub addr_eq : Eq SocketAddr
addr_eq = record { beq = same_addr; beq_iff = same_addr_iff }

abbrev pub client_accepts : SocketAddr → SocketAddr → Bool
client_accepts remote rinfo =
    if not (remote.port == rinfo.port)
    then false
    else if is_unspecified remote.ip
    then true
    else same_ip remote.ip rinfo.ip

-- Without a filter, every datagram is accepted.
abbrev pub accepts : Option SocketAddr → SocketAddr → Bool
accepts none rinfo = true
accepts (some remote) rinfo = client_accepts remote rinfo
