-- ===== src/Physical/Udp/Allowed.antt =====
-- src/layers/physical/udp.rs: which datagrams a client wants, apart from the test that the code makes.
use Prim.Native.String.{String}
use rs_modbus.Prelude.{
  ◌≡◌, refl, ◌⊎◌, inl, inr, arith, sym, Option, none, some, Bool, true, false, not, List, [], ◌∷◌,
  All, ◌==◌, if◌then◌else◌, Bool-cases,
}
use rs_modbus.Physical.Udp.{
  IpAddr, v4, v6, same_ip, same_ip_iff, is_unspecified, SocketAddr, client_accepts, accepts,
  Received, UdpPhysicalLayer, parsed_remote, filter_of,
}

-- The port of the remote address, and its IP unless that is 0.0.0.0 or `::`.
abbrev pub IsFrom : SocketAddr → SocketAddr → Type 0
IsFrom remote rinfo =
    (rinfo.port ≡ remote.port)
    × ((remote.ip ≡ v4 0) ⊎ ((remote.ip ≡ v6 0) ⊎ (rinfo.ip ≡ remote.ip)))

-- A server, and a client whose remote address is not known, want the datagrams of everyone.
abbrev pub IsAllowed : Bool → Option (String × Option SocketAddr) → SocketAddr → Type 0
IsAllowed true remote_addr rinfo = Unit
IsAllowed false none rinfo = Unit
IsAllowed false (some (text, none)) rinfo = Unit
IsAllowed false (some (text, some remote)) rinfo = IsFrom remote rinfo

is_unspecified_lem : (ip : IpAddr) → is_unspecified ip ≡ true → (ip ≡ v4 0) ⊎ (ip ≡ v6 0)
is_unspecified_lem (v4 a) e = ground (arith, e)
is_unspecified_lem (v6 a) e = ground (arith, e)

from_ip :
    (a b : IpAddr)
    → (if is_unspecified a then true else same_ip a b) ≡ true
    → (a ≡ v4 0) ⊎ ((a ≡ v6 0) ⊎ (b ≡ a))
from_ip a b e = elim (Bool-cases (is_unspecified a)) [
  | inl u ↦ elim (is_unspecified_lem a u) [ inl four ↦ inl four | inr six ↦ inr (inl six) ]
  | inr u ↦ inr (inr (sym ((same_ip_iff a b).0 (ground (arith, u, e)))))
]

client_accepts-IsFrom :
    (remote rinfo : SocketAddr) → client_accepts remote rinfo ≡ true → IsFrom remote rinfo
client_accepts-IsFrom remote rinfo e = by_port (remote.port == rinfo.port) refl e
  where
    by_port :
        (b : Bool)
        → (remote.port == rinfo.port) ≡ b
        → (if not b
            then false
            else if is_unspecified remote.ip
            then true
            else same_ip remote.ip rinfo.ip)
          ≡ true
        → IsFrom remote rinfo
    by_port true same h = (ground (arith, same), from_ip remote.ip rinfo.ip h)
    by_port false other h = absurd (ground (arith, h))

accepts-IsAllowed :
    (is_server : Bool) (remote_addr : Option (String × Option SocketAddr)) (rinfo : SocketAddr)
    → accepts (if is_server then none else parsed_remote remote_addr) rinfo ≡ true
    → IsAllowed is_server remote_addr rinfo
accepts-IsAllowed true remote_addr rinfo e = tt
accepts-IsAllowed false none rinfo e = tt
accepts-IsAllowed false (some (text, none)) rinfo e = tt
accepts-IsAllowed false (some (text, some remote)) rinfo e = client_accepts-IsFrom remote rinfo e

pub All-IsAllowed :
    (s : UdpPhysicalLayer) (ds : List Received)
    → All (λ d. accepts (filter_of s) d.addr ≡ true) ds
    → All (λ d. IsAllowed s.is_server s.remote_addr d.addr) ds
All-IsAllowed s [] h = tt
All-IsAllowed s (d ∷ ds) (e, h) =
    (accepts-IsAllowed s.is_server s.remote_addr d.addr e, All-IsAllowed s ds h)
