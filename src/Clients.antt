-- ===== src/Clients.antt =====
-- iperf2-code/src/List.cpp: the list of the clients that a server has, and how `Listener::Run` of
-- iperf2-code/src/Listener.cpp enters a client and how a server thread removes it. Each of the two holds
-- `clients_mutex`, so it is one step.
pub mod Groups
pub mod Listener
pub mod Only
pub mod Single
use flexfcapf.Prelude.{ℕ, ◌+◌, Option, none, some, List, [], ◌∷◌, if◌then◌else◌}
use flexfcapf.Address.{Addr, are_equal, host_are_equal}

-- `Iperf_ListEntry`; `holder` is the group whose header it points to.
pub record Entry : Type 0 where
  pub addr : Addr
  pub holder : ℕ

-- `clients` and the number of groups so far, which is `-groupID`.
pub record Registry : Type 0 where
  pub clients : List Entry
  pub groups : ℕ

-- `Iperf_pushback`
unfoldable pub pushback : Entry → List Entry → List Entry
pushback add root = add ∷ root

-- `Iperf_present` and `Iperf_hostpresent`: the first entry with the address, or with its host.
unfoldable pub present : Addr → List Entry → Option Entry
present find [] = none
present find (e ∷ es) = if are_equal e.addr find then some e else present find es

unfoldable pub hostpresent : Addr → List Entry → Option Entry
hostpresent find [] = none
hostpresent find (e ∷ es) = if host_are_equal e.addr find then some e else hostpresent find es

-- `Iperf_delete`: the first entry with the address is unlinked.
unfoldable pub delete : Addr → List Entry → List Entry
delete del [] = []
delete del (e ∷ es) = if are_equal e.addr del then es else e ∷ delete del es

-- The part of `Listener::Run` from `// Create an entry for the connection list` on, and `Iperf_pushback`.
unfoldable pub register_in : Option Entry → Addr → Registry → Registry
unfolding pushback
register_in (some exist) peer s = record s {
  clients = pushback (record { addr = peer; holder = exist.holder }) s.clients;
}
register_in none peer s = record {
  clients = pushback (record { addr = peer; holder = s.groups + 1 }) s.clients;
  groups = s.groups + 1;
}

unfoldable pub register : Addr → Registry → Registry
unfolding register_in
register peer s = register_in (hostpresent peer s.clients) peer s

-- The end of `Server::RunTCP` and of `Server::RunUDP`.
unfoldable pub unregister : Addr → Registry → Registry
unregister peer s = record s { clients = delete peer s.clients }

-- A client comes or goes.
pub data Event : Type 0 where
  comes goes : Addr → Event

unfoldable pub act : Event → Registry → Registry
unfolding register unregister
act (comes peer) s = register peer s
act (goes peer) s = unregister peer s

unfoldable pub act_all : List Event → Registry → Registry
unfolding act
act_all [] s = s
act_all (e ∷ es) s = act_all es (act e s)
