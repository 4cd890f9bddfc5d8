-- ===== src/Address/Compare.antt =====
-- The comparisons of addresses, and the multicast range.
use flexfcapf.Prelude.{ℕ, ◌*◌, ◌^◌, ◌<◌, ◌≡◌, refl, false, ◌&&◌, List, [], ◌∷◌, ◌==◌, arith, leb}
use flexfcapf.Address.{
  Addr, ByteOrder, is_inet6, same_bytes, are_equal, host_are_equal, is_multicast,
}

-- Two addresses are equal exactly if their hosts are and their ports are.
pub are_equal-host : (a b : Addr) → are_equal a b ≡ (host_are_equal a b && a.port == b.port)
unfolding are_equal host_are_equal
are_equal-host a b = ground arith

same_bytes_sym : (as' bs : List ℕ) → same_bytes as' bs ≡ same_bytes bs as'
same_bytes_sym [] [] = refl
same_bytes_sym [] (b ∷ bs) = refl
same_bytes_sym (a ∷ as') [] = refl
same_bytes_sym (a ∷ as') (b ∷ bs) = ground (arith, same_bytes_sym as' bs)

-- The comparison of hosts does not depend on the order.
pub host_are_equal_comm : (a b : Addr) → host_are_equal a b ≡ host_are_equal b a
unfolding host_are_equal
host_are_equal_comm a b = ground (arith, same_bytes_sym a.addr6 b.addr6)

-- An IPv4 address is taken for multicast from 224.0.0.0 up to the last one.
pub is_multicast-ipv4 :
    (o : ByteOrder) (a : Addr)
    → is_inet6 a.family ≡ false
    → o.ntohl a.addr4 < 2 ^ 32
    → is_multicast o a ≡ leb (224 * 2 ^ 24) (o.ntohl a.addr4)
unfolding is_multicast
is_multicast-ipv4 o a f h = ground arith
