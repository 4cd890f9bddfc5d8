-- ===== src/Buffers.antt =====
-- The buffers of the threads and what stands in them: the constructors in iperf2-code/src/Client.cpp,
-- iperf2-code/src/Listener.cpp and iperf2-code/src/Server.cpp, with the sizes of iperf2-code/include/Settings.hpp.
pub mod Room
use flexfcapf.Prelude.{
  ℕ, ◌+◌, ◌-◌, ◌^◌, Bool, true, false, not, ◌&&◌, ◌||◌, Option, none, some, List, [], ◌∷◌,
  if◌then◌else◌, max, ltb,
}
use flexfcapf.Prelude.Int.{ℤ, pos, pos_part, ltb_ℤ, to_unsigned}
use flexfcapf.Options.{
  ThreadSettings, is_flag, is_extended, unset_extended, compat_flag, udp_flag, peerver_flag,
}
use flexfcapf.Options.Generate.{is_normal}
use flexfcapf.Extractor.{Extractor, reduce_read_size, read_size}

-- `sizeof` of `UDP_datagram`, `client_hdr` and `server_hdr`.
abbrev pub sizeof_datagram : ℕ
sizeof_datagram = 16

abbrev pub sizeof_client_hdr : ℕ
sizeof_client_hdr = 64

abbrev pub sizeof_server_hdr : ℕ
sizeof_server_hdr = 104

abbrev pub sizeof_tcphdrmsg : ℕ
sizeof_tcphdrmsg = max sizeof_client_hdr sizeof_server_hdr

abbrev pub sizeof_udphdrmsg : ℕ
sizeof_udphdrmsg = max (sizeof_client_hdr + sizeof_datagram) sizeof_server_hdr

abbrev pub sizeof_maxhdrmsg : ℕ
sizeof_maxhdrmsg = max sizeof_tcphdrmsg sizeof_udphdrmsg

abbrev pub at_least : ℕ → ℤ → ℤ
at_least n len = if ltb_ℤ len (pos n) then pos n else len

module _ {W : Type 0} where
  -- The warning `warn_compat_and_peer_exchange`: with both -C and -X, the latter has no effect.
  unfoldable pub settle_compat : ThreadSettings W → ThreadSettings W
  settle_compat s =
      if is_flag compat_flag s && is_extended peerver_flag s
      then unset_extended peerver_flag s
      else s

  -- The client's headers have to go into one message.
  abbrev pub sends_header : ThreadSettings W → Bool
  sends_header s =
      not (is_flag compat_flag s) && (is_extended peerver_flag s || not (is_normal s.mode))

  abbrev pub fit_header : ThreadSettings W → ThreadSettings W
  fit_header s =
      if is_flag udp_flag s
      then (if sends_header s && ltb_ℤ s.buf_len (pos sizeof_udphdrmsg)
          then record s { buf_len = pos sizeof_udphdrmsg }
          else record s { buf_len = at_least sizeof_datagram s.buf_len })
      else if sends_header s
      then record s { buf_len = at_least sizeof_tcphdrmsg s.buf_len }
      else s

  -- `mBufLen` in the constructor of `Client`.
  unfoldable pub client_buffer : ThreadSettings W → ThreadSettings W
  unfolding settle_compat
  client_buffer settings = fit_header (settle_compat settings)

  -- `mBufLen` in the constructor of `Listener`.
  unfoldable pub listener_buffer : ThreadSettings W → ThreadSettings W
  listener_buffer s =
      if is_flag udp_flag s then record s { buf_len = at_least sizeof_datagram s.buf_len } else s

-- How many bytes `mBuf` has, in all three constructors; the listener takes the length before it is increased.
unfoldable pub capacity : ℤ → ℕ
capacity buf_len =
    if ltb_ℤ (pos sizeof_maxhdrmsg) buf_len then pos_part buf_len else sizeof_maxhdrmsg

-- A stretch of bytes that a thread writes into its buffer, or reads from it.
pub record Stretch : Type 0 where
  pub from : ℕ
  pub count : ℕ

module _ {W : Type 0} where
  -- What `Client::Run` reads of its file, and where to: behind the headers of a datagram.
  unfoldable pub client_block : ThreadSettings W → Extractor → Stretch
  client_block s x =
      if is_flag udp_flag s
      then (if is_flag compat_flag s
          then record {
            from = sizeof_datagram;
            count = read_size (reduce_read_size (pos sizeof_datagram) x);
          }
          else record {
            from = sizeof_datagram + sizeof_client_hdr;
            count = read_size (reduce_read_size (pos (sizeof_datagram + sizeof_client_hdr)) x);
          })
      else record { from = 0; count = read_size x }

  -- Where `InitiateServer` puts the header of a client.
  unfoldable pub header_place : ThreadSettings W → Stretch
  header_place s = record {
    from = if is_flag udp_flag s then sizeof_datagram else 0;
    count = sizeof_client_hdr;
  }

  -- The acknowledgement of `write_UDP_AckFIN`, if there is room for it.
  unfoldable pub ack_place : ThreadSettings W → Option Stretch
  ack_place s =
      if ltb_ℤ (pos (sizeof_datagram + sizeof_server_hdr)) s.buf_len
      then some (record { from = sizeof_datagram; count = sizeof_server_hdr })
      else none
