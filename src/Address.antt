-- ===== src/Address.antt =====
-- Lacewing/src/address.c: what an address is made of, before and after its name is resolved.
pub mod Laws
use bluewing_cpp_server.Prelude.{
  ℕ, zero, suc, ◌+◌, ◌-◌, ◌%◌, ◌^◌, Bool, true, false, not, ◌&&◌, ◌||◌, Option, none, some, List,
  [], ◌∷◌, ◌++◌, ltb, ◌==◌, if◌then◌else◌, Bytes, bytes_eq, codes, take, drop,
}
use bluewing_cpp_server.CLib.{isspace}
use bluewing_cpp_server.Util.{copy_string, begins_with}

-- What is read of a `struct sockaddr` of the two families; a port is in the host's byte order.
pub data Sockaddr : Type 0 where
  inet : Bytes → ℕ → Sockaddr
  inet6 : Bytes → ℕ → Sockaddr

-- `ai_socktype`
pub data SockType : Type 0 where
  stream : SockType
  dgram : SockType
  other : SockType

-- What is read of a `struct addrinfo`.
pub record AddrInfo : Type 0 where
  pub ai_socktype : SockType
  pub ai_addr : Option Sockaddr

-- `struct _lw_addr`; `ready` is whether the resolver is not at work, `buffer` the printed address.
pub record Addr : Type 0 where
  pub hostname : Bytes
  pub service : Bytes
  pub info : Option AddrInfo
  pub ready : Bool
  pub buffer : Bytes

-- The loop of `lwp_addr_init` between two characters: what the host and the service read as so far,
-- whether a NUL has ended them, and the characters that the host is still ahead of the loop.
pub record Split : Type 0 where
  pub host : Bytes
  pub host_open : Bool
  pub service : Bytes
  pub service_open : Bool
  pub ahead : ℕ

abbrev pub grown : Bool → Bytes → ℕ → Bytes
grown true s c = s ++ c ∷ []
grown false s c = s

unfoldable pub split_step : Split → ℕ → Bytes → Split
split_step s c rest =
    if c == b':' && begins_with rest (codes "//")
    then record { host = []; host_open = true; service = s.host; service_open = false; ahead = 2 }
    else if c == b':'
    then record s { host_open = false; service = []; service_open = true }
    else record s {
      host = grown (s.host_open && s.ahead == 0) s.host c;
      service = grown s.service_open s.service c;
      ahead = s.ahead - 1;
    }

unfoldable pub split : Split → Bytes → Split
split s [] = s
split s (c ∷ rest) = split (split_step s c rest) rest

unfoldable pub trim_front : Bytes → Bytes
trim_front [] = []
trim_front (c ∷ s) = let rest = trim_front s in if isspace c then rest else c ∷ s

-- Spaces at the end; for a string of nothing else the source reads in front of it.
unfoldable pub trim_back : Bytes → Bytes
trim_back [] = []
trim_back (c ∷ s) = keep_char c (trim_back s)
  where
    keep_char : ℕ → Bytes → Bytes
    keep_char c [] = if isspace c then [] else c ∷ []
    keep_char c (d ∷ s) = c ∷ d ∷ s

-- lwp_addr_init: the host, and the service as far as its array holds it.
unfoldable pub init : Bytes → Bytes → Bytes × Bytes
init hostname service =
    let s =
      split
        (record { host = []; host_open = true; service = service; service_open = false; ahead = 0 })
        (trim_back (trim_front hostname)) in
    (s.host, copy_string s.service 64)

abbrev address_of : Option AddrInfo → Option Sockaddr
address_of none = none
address_of (some info) = info.ai_addr

abbrev port_of : Option Sockaddr → ℕ
port_of none = 0
port_of (some (inet a p)) = p
port_of (some (inet6 a p)) = p

-- lw_addr_port
unfoldable pub port : Addr → ℕ
port ctx = if not ctx.ready then 0 else port_of (address_of ctx.info)

abbrev with_port : ℕ → Sockaddr → Sockaddr
with_port p (inet a _) = inet a (p % 2 ^ 16)
with_port p (inet6 a _) = inet6 a (p % 2 ^ 16)

abbrev set_port_of : Addr → ℕ → Option AddrInfo → Option Sockaddr → Addr
set_port_of ctx p (some info) (some a) = record ctx {
  info = some (record info { ai_addr = some (with_port p a) });
  buffer = [];
}
set_port_of ctx p _ _ = ctx

-- lw_addr_set_port
unfoldable pub set_port : Addr → ℕ → Addr
set_port ctx p = if not ctx.ready then ctx else set_port_of ctx p ctx.info (address_of ctx.info)

unfoldable pub sockaddr_equal : Option Sockaddr → Option Sockaddr → Bool
sockaddr_equal (some (inet a p)) (some (inet b q)) = bytes_eq a b
sockaddr_equal (some (inet6 a p)) (some (inet6 b q)) = bytes_eq a b
sockaddr_equal _ _ = false

-- lw_addr_equal: an address that is not resolved equals every other.
abbrev infos_equal : Option AddrInfo → Option AddrInfo → Bool
infos_equal (some a) (some b) = sockaddr_equal a.ai_addr b.ai_addr
infos_equal _ _ = true

unfoldable pub equal : Addr → Addr → Bool
equal a b = infos_equal a.info b.info

-- lw_addr_ipv6
abbrev is_inet6 : Option Sockaddr → Bool
is_inet6 (some (inet6 a p)) = true
is_inet6 _ = false

unfoldable pub ipv6 : Addr → Bool
ipv6 ctx = is_inet6 (address_of ctx.info)

-- lw_addr_type_tcp, lw_addr_type_udp
pub data AddrType : Type 0 where
  tcp : AddrType
  udp : AddrType

abbrev type_of : Option AddrInfo → Option AddrType
type_of none = none
type_of (some info) = elim info.ai_socktype [ stream ↦ some tcp | dgram ↦ some udp | other ↦ none ]

-- lw_addr_type; `none` is 0
unfoldable pub addr_type : Addr → Option AddrType
addr_type ctx = type_of ctx.info

abbrev socktype_of : AddrType → SockType
socktype_of tcp = stream
socktype_of udp = dgram

abbrev set_type_of : Addr → AddrType → Option AddrInfo → Addr
set_type_of ctx t none = ctx
set_type_of ctx t (some info) = record ctx {
  info = some (record info { ai_socktype = socktype_of t });
}

-- lw_addr_set_type
unfoldable pub set_type : Addr → AddrType → Addr
set_type ctx t = set_type_of ctx t ctx.info
