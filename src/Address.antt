-- ===== src/Address.antt =====
-- iperf2-code/src/SocketAddr.c: socket addresses. The library's `htons`, `ntohs`, `ntohl` and
-- `getaddrinfo` are parameters.
pub mod Port
pub mod Compare
use Prim.Native.String.{String}
use flexfcapf.Prelude.{
  ℕ, Bool, true, false, ◌&&◌, Option, none, some, List, [], ◌∷◌, ◌==◌, if◌then◌else◌, ◌>>=◌,
  replicate,
}
use flexfcapf.Prelude.Bits.{has_bit}
use flexfcapf.Settings.{ThreadMode, is_client, is_ipv6}

-- `sa_family`; zero is no family.
pub data Family : Type 0 where
  unspec inet inet6 other : Family

abbrev pub is_inet : Family → Bool
is_inet Family.inet = true
is_inet _ = false

abbrev pub is_inet6 : Family → Bool
is_inet6 Family.inet6 = true
is_inet6 _ = false

-- `iperf_sockaddr`. `sin_port` and `sin6_port` lie at the same place; the numbers are in network order,
-- and `addr6` is the sixteen bytes of `sin6_addr`.
pub record Addr : Type 0 where
  pub family : Family
  pub port : ℕ
  pub addr4 : ℕ
  pub addr6 : List ℕ

pub record ByteOrder : Type 0 where
  pub htons : ℕ → ℕ
  pub ntohs : ℕ → ℕ
  pub ntohl : ℕ → ℕ

-- The addresses of a name, or the error of `getaddrinfo`.
abbrev pub Resolver : Type 0
Resolver = String → Option (List Addr)

-- The settings that concern addresses.
pub record Endpoint : Type 0 where
  pub host : Option String  -- mHost
  pub localhost : Option String  -- mLocalhost
  pub port : ℕ  -- mPort
  pub bind_port : ℕ  -- mBindPort
  pub thread_mode : ThreadMode
  pub flags : ℕ
  pub peer : Addr
  pub size_peer : ℕ
  pub local_addr : Addr
  pub size_local : ℕ

unfoldable pub zero_address : Addr
zero_address = record { family = Family.unspec; port = 0; addr4 = 0; addr6 = replicate 16 0 }

unfoldable pub set_address_any : Addr → Addr
set_address_any a =
    if is_inet a.family then record a { addr4 = 0 } else record a { addr6 = replicate 16 0 }

-- Both branches write the same place.
unfoldable pub set_port : ByteOrder → Addr → ℕ → Addr
set_port o a port = record a { port = o.htons port }

unfoldable pub set_port_any : ByteOrder → Addr → Addr
unfolding set_port
set_port_any o a = set_port o a 0

unfoldable pub get_port : ByteOrder → Addr → ℕ
get_port o a = o.ntohs a.port

unfoldable pub get_in_addr : Addr → Option ℕ
get_in_addr a = if is_inet a.family then some a.addr4 else none

unfoldable pub get_in6_addr : Addr → Option (List ℕ)
get_in6_addr a = if is_inet6 a.family then some a.addr6 else none

-- `sizeof(struct sockaddr_in6)` and `sizeof(struct sockaddr_in)`
unfoldable pub get_sizeof_sockaddr : Addr → ℕ
get_sizeof_sockaddr a = if is_inet6 a.family then 28 else 16

unfoldable pub is_ipv6_addr : Addr → Bool
is_ipv6_addr a = is_inet6 a.family

-- `IN6_IS_ADDR_MULTICAST` tests the first byte.
abbrev pub starts_with_ff : List ℕ → Bool
starts_with_ff [] = false
starts_with_ff (b ∷ bs) = b == 255

-- (ntohl(s_addr) & 0xe0000000) == 0xe0000000
unfoldable pub is_multicast : ByteOrder → Addr → Bool
is_multicast o a =
    let n : ℕ = o.ntohl a.addr4 in
    if is_inet6 a.family
    then starts_with_ff a.addr6
    else has_bit n 31 && has_bit n 30 && has_bit n 29

-- `memcmp`
abbrev pub same_bytes : List ℕ → List ℕ → Bool
same_bytes [] [] = true
same_bytes (a ∷ as') (b ∷ bs) = a == b && same_bytes as' bs
same_bytes _ _ = false

unfoldable pub are_equal : Addr → Addr → Bool
are_equal a b =
    if is_inet a.family && is_inet b.family
    then a.addr4 == b.addr4 && a.port == b.port
    else (if is_inet6 a.family && is_inet6 b.family
        then same_bytes a.addr6 b.addr6 && a.port == b.port
        else false)

unfoldable pub host_are_equal : Addr → Addr → Bool
host_are_equal a b =
    if is_inet a.family && is_inet b.family
    then a.addr4 == b.addr4
    else (if is_inet6 a.family && is_inet6 b.family then same_bytes a.addr6 b.addr6 else false)

-- The first address of a family.
unfoldable pub find_family : (Family → Bool) → List Addr → Option Addr
find_family test [] = none
find_family test (a ∷ as') = if test a.family then some a else find_family test as'

-- `SockAddr_setHostname`; `none` is `exit(1)`. The first of the results is read before the search.
unfoldable pub set_hostname : Resolver → String → Addr → Bool → Option Addr
unfolding find_family
set_hostname resolve name a ipv6 = elim (resolve name) [
  | none ↦ none
  | some [] ↦ none
  | some (r ∷ rs) ↦ some (elim (if ipv6 then find_family is_inet6 (r ∷ rs) else none) [
    | some x ↦ x
    | none ↦ elim (find_family is_inet (r ∷ rs)) [ some x ↦ x | none ↦ a ]
  ])
]

-- The address of a host, or with no host the family alone.
abbrev pub host_addr : Resolver → Option String → ℕ → Option Addr
host_addr resolve (some name) flags = set_hostname resolve name zero_address (is_ipv6 flags)
host_addr resolve none flags =
    some (record zero_address { family = if is_ipv6 flags then Family.inet6 else Family.inet })

-- `SockAddr_remoteAddr`
unfoldable pub remote_addr : ByteOrder → Resolver → Endpoint → Option Endpoint
remote_addr o resolve e = do
  a ← host_addr resolve e.host e.flags
  some (record e { peer = set_port o a e.port; size_peer = get_sizeof_sockaddr a })

-- The local port: zero lets the system choose.
unfoldable pub bind_local : ByteOrder → Endpoint → Addr → Addr
bind_local o e a = elim e.localhost [
  | none ↦ if is_client e.thread_mode then set_port_any o a else set_port o a e.port
  | some name ↦
      if is_client e.thread_mode
      then (if e.bind_port == 0 then set_port_any o a else set_port o a e.bind_port)
      else set_port o a e.port
]

-- `SockAddr_localAddr`, without its reset of the string `peerversion`.
unfoldable pub local_addr : ByteOrder → Resolver → Endpoint → Option Endpoint
local_addr o resolve e = do
  a ← host_addr resolve e.localhost e.flags
  some (record e { local_addr = bind_local o e a; size_local = get_sizeof_sockaddr a })
