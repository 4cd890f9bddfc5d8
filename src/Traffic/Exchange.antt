-- ===== src/Traffic/Exchange.antt =====
-- The exchange of headers before a test: `Client::InitiateServer` and `Client::HdrXchange` of iperf2-code/src/Client.cpp,
-- `Listener::ReadClientHeader` and `Listener::ClientHeaderAck` of iperf2-code/src/Listener.cpp. The options of the sockets,
-- which bound the time that a call waits, the warnings, the time in a UDP header and what the listener keeps of the client's
-- version are left out; what the calls answer is the input.
pub mod Known
use flexfcapf.Prelude.{
  ℕ, Bool, true, false, not, ◌&&◌, ◌||◌, Option, none, some, ◌==◌, if◌then◌else◌,
}
use flexfcapf.Prelude.Int.{ℤ, pos, ltb_ℤ, eqb_ℤ}
use flexfcapf.Prelude.Bits.{has_bit}
use flexfcapf.Options.{ThreadSettings, is_flag, compat_flag, udp_flag}
use flexfcapf.Options.Generate.{ClientHdr, generate_client_hdr}

-- `client_hdr_ack`, each word as `ntohl` makes it.
pub record ClientHdrAck : Type 0 where
  pub kind : ℕ  -- typelen.type
  pub length : ℕ  -- typelen.length
  pub flags : ℕ
  pub version_u : ℕ
  pub version_l : ℕ
  pub reserved1 : ℕ
  pub reserved2 : ℕ

-- What `peerversion` says of the server.
pub data PeerVersion : Type 0 where
  unset old misformed : PeerVersion
  known : (version_u version_l : ℕ) → PeerVersion

-- The sizes of `client_hdr_v1`, `client_hdr` and `client_hdr_ack`, and CLIENTHDRACK.
abbrev pub sizeof_v1 : ℕ
sizeof_v1 = 28

abbrev pub sizeof_hdr : ℕ
sizeof_hdr = 64

abbrev pub sizeof_ack : ℕ
sizeof_ack = 28

abbrev pub clienthdrack : ℕ
clienthdrack = 2

-- What the client makes of the answer; there is none if `recvn` has not read the whole of one.
unfoldable pub read_ack : Option ClientHdrAck → PeerVersion
read_ack none = PeerVersion.old
read_ack (some ack) =
    if ack.kind == clienthdrack && ack.length == sizeof_ack
    then PeerVersion.known ack.version_u ack.version_l
    else PeerVersion.misformed

-- `HdrXchange`: how many bytes it sends, and what it knows of the server. `result` is the result of `send`.
unfoldable pub hdr_xchange :
    Bool → ℕ → ℕ → ℤ → Option ClientHdrAck → PeerVersion → Option ℕ × PeerVersion
unfolding read_ack
hdr_xchange udp flags buf_len result answer before =
    if has_bit flags 30
    then (
      some (if udp then buf_len else sizeof_hdr),
      if ltb_ℤ result (pos 0) then before else read_ack answer,
    )
    else if has_bit flags 31 && not udp
    then (some sizeof_v1, before)
    else (none, before)

-- `InitiateServer`, with the numbers of the client's version.
unfoldable pub initiate_server :
    {W : Type 0}
    → ℕ
    → ℕ
    → ThreadSettings W
    → ClientHdr
    → ℕ
    → ℤ
    → Option ClientHdrAck
    → PeerVersion
    → Option ℕ × PeerVersion
unfolding hdr_xchange
initiate_server major minor client hdr buf_len result answer before =
    let flags = (generate_client_hdr major minor client hdr).1 in
    if not (is_flag compat_flag client) && (has_bit flags 30 || has_bit flags 31)
    then hdr_xchange (is_flag udp_flag client) flags buf_len result answer before
    else (none, before)

-- The acknowledgement that `ClientHeaderAck` sends.
unfoldable pub client_header_ack : ℕ → ℕ → ClientHdrAck
client_header_ack major minor = record {
  kind = clienthdrack;
  length = sizeof_ack;
  flags = 0;
  version_u = major;
  version_l = minor;
  reserved1 = 0;
  reserved2 = 0;
}

-- The flags that `ReadClientHeader` reads, or nothing if it refuses the client. `word` is the first word of the header, and
-- `peek n` the result of `recvn` for `n` bytes.
unfoldable pub peek_flags : Bool → ℕ → (ℕ → ℤ) → Option ℕ
peek_flags udp word peek =
    let len = if has_bit word 30 then sizeof_hdr else if has_bit word 31 then sizeof_v1 else 0 in
    if udp
    then some word
    else if eqb_ℤ (peek 4) (pos 4)
    then (if not (len == 0) && not (eqb_ℤ (peek len) (pos len)) then none else some word)
    else some 0

abbrev pub answer_flags : ℕ → ℕ → Option ℕ → Option (Option ClientHdrAck)
answer_flags major minor none = none
answer_flags major minor (some flags) =
    some (if has_bit flags 30 then some (client_header_ack major minor) else none)

-- `ReadClientHeader`: the acknowledgement that it sends, if it sends one.
unfoldable pub read_client_header : ℕ → ℕ → Bool → ℕ → (ℕ → ℤ) → Option (Option ClientHdrAck)
unfolding peek_flags
read_client_header major minor udp word peek = answer_flags major minor (peek_flags udp word peek)
