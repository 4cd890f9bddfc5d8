-- ===== src/Traffic/Fin.antt =====
-- The last datagrams of `Client::write_UDP_FIN` in iperf2-code/src/Client.cpp.
use flexfcapf.Prelude.{
  ℕ, zero, suc, ◌+◌, ◌-◌, ◌%◌, ◌^◌, ◌≤◌, ◌<◌, ◌≡◌, refl, subst, Option, List, [], ◌∷◌, length,
  Returns, Returns->>=, arith,
}
use flexfcapf.Traffic.{Datagram}
use flexfcapf.Traffic.Client.{Answer, nothing, bytes, error, decrement_id, write_udp_fin}

-- Datagrams whose first words count down from a number.
abbrev pub CountsDown : ℕ → List Datagram → Type 0
CountsDown m [] = Unit
CountsDown m (b ∷ bs) = (b.id ≡ m) × CountsDown (m - 1) bs

-- What the loop has written: as many as it may at most.
abbrev pub IsRetried : ℕ → ℕ → List Datagram × Option ℕ → Type 0
IsRetried fuel m r = (length r.0 ≤ fuel) × CountsDown m r.0

one_less : (m : ℕ) → 0 < m → m < 2 ^ 32 → (m + 2 ^ 32 - 1) % 2 ^ 32 ≡ m - 1
one_less m p h = ground arith

-- With an answer or a timeout for every try, the loop ends after as many datagrams as it may write at most, and the first
-- word of each is one less than that of the one before.
pub write_udp_fin-IsRetried :
    (fuel : ℕ) (answers : List Answer) (b : Datagram)
    → fuel ≤ length answers
    → fuel ≤ b.id
    → b.id < 2 ^ 32
    → Returns (IsRetried fuel b.id) (write_udp_fin fuel answers b)
unfolding write_udp_fin decrement_id
write_udp_fin-IsRetried zero answers b h m w = (omega arith, tt)
write_udp_fin-IsRetried (suc fuel) [] b h m w = absurd (omega arith)
write_udp_fin-IsRetried (suc fuel) (bytes n ∷ rest) b h m w = (omega arith, (refl, tt))
write_udp_fin-IsRetried (suc fuel) (error ∷ rest) b h m w = (omega arith, (refl, tt))
write_udp_fin-IsRetried (suc fuel) (nothing ∷ rest) b h m w =
    let less = one_less b.id (omega arith) w in
    Returns->>= (IsRetried fuel (decrement_id b).id) (IsRetried (suc fuel) b.id)
      (write_udp_fin fuel rest (decrement_id b)) _
      (write_udp_fin-IsRetried fuel rest (decrement_id b) (omega arith) (omega (arith, less))
        (omega (arith, less)))
      (λ r k. (omega (arith, k.0), (refl, subst (λ z. CountsDown z r.0) less k.1)))
