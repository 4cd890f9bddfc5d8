-- ===== src/Tests/Loops.antt =====
-- Threads, sockets and addresses.
use flexfcapf.Prelude.{◌+◌, ◌*◌, ◌^◌, ◌≡◌, refl, false, none, List, [], ◌∷◌, arith, ltb, replicate}
use flexfcapf.Prelude.Int.{pos, ◌+ℤ◌}
use flexfcapf.Settings.{ThreadMode}
use flexfcapf.Thread.{Counts, Settings, null, thread, joinall_waits}
use flexfcapf.Thread.Count.{Census, Event, act_all, recount_all, Agrees, joinall_waits_for}
use flexfcapf.Sockets.{Read, Write, Errno, writen}
use flexfcapf.Sockets.Whole.{IsWhole, IsWholeOrOpen, writen-whole, writen-ends}
use flexfcapf.Address.{Family, Addr, Resolver, Endpoint, zero_address}
use flexfcapf.Tests.Fixed.{big_endian}
use flexfcapf.Address.Port.{RoundTrips}

abbrev no_threads : Counts
no_threads = record { running = pos 0; nonterm = 0 }

-- A client that starts the reporter before it.
abbrev client : Settings
client = thread 1 false (thread 2 false null null) null

abbrev nobody : Census
nobody = record { alive = 0; ignored = 0; listeners = 0; released = 0 }

-- A listener that is released by a signal, and ends.
abbrev a_server : List Event
a_server =
    Event.start ∷ Event.start ∷ Event.ignore ∷ Event.listen ∷ Event.release ∷ Event.unlisten
    ∷ Event.finish ∷ []

no_threads-Agrees : Agrees no_threads nobody
unfolding ◌+ℤ◌
no_threads-Agrees = record { count = refl; rest = refl }

joinall_waits_for_example :
    joinall_waits (act_all a_server no_threads)
    ≡ ltb
        ((recount_all a_server nobody).ignored + (recount_all a_server nobody).released)
        (recount_all a_server nobody).alive
joinall_waits_for_example =
    joinall_waits_for a_server no_threads nobody no_threads-Agrees
      (tt, (tt, (tt, (tt, (tt, (omega arith, (omega arith, tt)))))))

-- Three bytes in two parts, with an interruption.
abbrev two_parts : List Read
two_parts = Read.got (1 ∷ 2 ∷ []) ∷ Read.failed Errno.eintr ∷ Read.got (3 ∷ []) ∷ []

abbrev three_writes : List Write
three_writes = Write.wrote 1 ∷ Write.stopped Errno.eintr ∷ Write.wrote 1 ∷ Write.wrote 1 ∷ []

writen-whole_example : IsWholeOrOpen (5 ∷ 6 ∷ 7 ∷ []) (writen three_writes (5 ∷ 6 ∷ 7 ∷ []))
writen-whole_example = writen-whole three_writes (5 ∷ 6 ∷ 7 ∷ [])

writen-ends_example : IsWhole (5 ∷ 6 ∷ 7 ∷ []) (writen three_writes (5 ∷ 6 ∷ 7 ∷ []))
writen-ends_example =
    writen-ends three_writes (5 ∷ 6 ∷ 7 ∷ [])
      (omega arith, (refl, (omega arith, (omega arith, tt)))) (omega arith)

big_endian-RoundTrips : RoundTrips big_endian
unfolding RoundTrips
big_endian-RoundTrips p h = refl

abbrev no_names : Resolver
no_names name = none

-- A listener with the port of -p alone.
abbrev listener : Endpoint
listener = record {
  host = none;
  localhost = none;
  port = 5001;
  bind_port = 0;
  thread_mode = ThreadMode.listener;
  flags = 0;
  peer = zero_address;
  size_peer = 0;
  local_addr = zero_address;
  size_local = 0;
}

abbrev group : Addr
group = record {
  family = Family.inet;
  port = 5001;
  addr4 = 239 * 2 ^ 24 + 65793;
  addr6 = replicate 16 0;
}
