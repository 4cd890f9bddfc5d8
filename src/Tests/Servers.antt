-- ===== src/Tests/Servers.antt =====
-- The single UDP server and the start of the program.
use flexfcapf.Prelude.{ℕ, ◌+◌, ◌^◌, ◌≡◌, refl, false, List, [], ◌∷◌, Ensures}
use flexfcapf.Prelude.Int.{pos}
use flexfcapf.Traffic.{Datagram}
use flexfcapf.Address.{Addr}
use flexfcapf.Clients.Single.{Heard, heard, Single, udp_single_server}
use flexfcapf.Clients.Single.Apart.{is_known}
use flexfcapf.Clients.Single.Streams.{concerning, from_client, follow, udp_single_server-follow}
use flexfcapf.Launch.{main_threads, main_settings}
use flexfcapf.Launch.Started.{Launches, main-IsLaunched}
use flexfcapf.Tests.Fixed.{fixed, no_addr, time, datagram}
use flexfcapf.Tests.Parsing.{library, no_variables, a_client}

abbrev client : ℕ → Addr
client n = record no_addr { addr4 = n; port = n }

abbrev numbered : ℕ → Datagram
numbered n = record { id = n; tv_sec = 10; tv_usec = 0; id2 = 0 }

abbrev nobody : Single
nobody = record {
  listening = record {
    registry = record { clients = []; groups = 0 };
    is_limited = false;
    peer = no_addr;
    left = pos 0;
    served = [];
  };
  report = datagram (pos 0) (time 10 0);
}

-- The datagrams of two clients, and the end of the first one's.
abbrev mixed : List Heard
mixed =
    heard (client 1) 1470 (numbered 0) (time 10 1) (time 10 1)
    ∷ heard (client 2) 1470 (numbered 0) (time 10 2) (time 10 2)
    ∷ heard (client 1) 1470 (numbered 1) (time 10 3) (time 10 3)
    ∷ heard (client 2) 1470 (numbered 1) (time 10 4) (time 10 4)
    ∷ heard (client 1) 1470 (numbered (2 ^ 31 + 2)) (time 10 5) (time 10 6)
    ∷ []

udp_single_server-follow_example :
    concerning (client 1) (udp_single_server false false mixed nobody).0
    ≡ follow (is_known (client 1) []) (datagram (pos 0) (time 10 0)) (from_client (client 1) mixed)
udp_single_server-follow_example = udp_single_server-follow (client 1) mixed nobody tt refl

main-IsLaunched_example :
    Ensures (λ s. Launches s (main_threads s)) (main_settings library no_variables [] a_client)
main-IsLaunched_example = main-IsLaunched library no_variables [] a_client
