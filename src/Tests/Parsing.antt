-- ===== src/Tests/Parsing.antt =====
-- The options and the settings.
use Prim.Native.String.{String}
use flexfcapf.Prelude.{
  if◌then◌else◌, ◌*◌, ◌&&◌, ◌^◌, ◌≡◌, refl, ◌↔◌, true, false, Option, none, some, List, [], ◌∷◌,
  ◌>>=◌, arith, Ensures, Returns,
}
use flexfcapf.Prelude.Int.{ℤ, pos}
use flexfcapf.Settings.{ThreadMode, TestMode}
use flexfcapf.Numbers.{Text, CLibrary, byte_snprintf}
use flexfcapf.Numbers.Adaptive.{scaled, is_adaptive, never_below, step_of, byte_snprintf-none}
use flexfcapf.Address.{set_hostname, find_family}
use flexfcapf.Options.{ThreadSettings, initialize}
use flexfcapf.Options.Texts.{Opt}
use flexfcapf.Options.Interpret.{Library, interpret_all, parse_environment, parse_command_line}
use flexfcapf.Options.Modes.{IsConsistent, parse-IsConsistent}
use flexfcapf.Options.Length.{last_len, any_datagram, settle, interpret_all-buf_len}
use flexfcapf.Options.Refusal.{any_refused, Resolves, interpret_all-none}
use flexfcapf.Options.Generate.{
  ClientHdr, fill_extend, generate_client_hdr, generate_client_settings,
}
use flexfcapf.Options.Trip.{Mirrors, client_hdr-Mirrors}
use flexfcapf.Traffic.Exchange.{PeerVersion, hdr_xchange, initiate_server, read_client_header}
use flexfcapf.Traffic.Exchange.Known.{ack_for, exchange-known}
use flexfcapf.Tests.Fixed.{fixed, scale, big_endian, no_addr}

-- Every text is the number ten, of kilobytes where there is a suffix.
abbrev tens : CLibrary ℤ
tens = record {
  strtoll = λ t. elim t [ [] ↦ none | c ∷ cs ↦ some (pos 10, []) ];
  strtof = λ t. (scale (pos 10), []);
  atof = λ t. scale (pos 10);
  atoi = λ t. pos 10;
  strtol = λ t. pos 10;
  scan = λ t. (scale (pos 10), b'K');
}

abbrev pub library : Library ℤ
library = record {
  c = tens;
  string = λ t. "host";
  resolve = λ name. some (no_addr ∷ []);
  order = big_endian;
}

abbrev pub no_variables : String → Option Text
no_variables name = none

-- -u -c h -d -l 10K
abbrev pub a_client : List (Opt × Text)
a_client =
    (Opt.udp, [])
    ∷ (Opt.client, b'h' ∷ [])
    ∷ (Opt.dualtest, [])
    ∷ (Opt.len, b'1' ∷ b'0' ∷ b'k' ∷ [])
    ∷ []

parse-IsConsistent_example :
    Ensures IsConsistent
      (parse_environment library no_variables initialize >>= parse_command_line library [] a_client)
parse-IsConsistent_example = parse-IsConsistent library no_variables [] a_client

interpret_all-buf_len_example :
    Ensures
      (λ (t : ThreadSettings ℤ).
        t.buf_len
        ≡ settle (last_len library a_client) (any_datagram a_client) false (pos (128 * 1024)))
      (interpret_all library a_client initialize)
interpret_all-buf_len_example = interpret_all-buf_len library a_client

library-Resolves : Resolves library
unfolding set_hostname find_family
library-Resolves name true = refl
library-Resolves name false = refl

interpret_all-none_example :
    (interpret_all library ((Opt.bandwidth, []) ∷ a_client) initialize ≡ none)
    ↔ (any_refused library ((Opt.bandwidth, []) ∷ a_client) ≡ true)
unfolding initialize
interpret_all-none_example =
    interpret_all-none library ((Opt.bandwidth, []) ∷ a_client) initialize library-Resolves
      (refl, refl, refl)

-- Two pebibytes.
abbrev too_many : ℤ
too_many = scale (pos (2 ^ 51))

byte_snprintf-none_example :
    (byte_snprintf too_many b'A' ≡ none)
    ↔ (is_adaptive b'A' && never_below (scaled too_many b'A') (step_of b'A') ≡ true)
byte_snprintf-none_example = byte_snprintf-none too_many b'A'

-- A client that runs a test of both ways for ten seconds, and a listener.
abbrev dual_client : ThreadSettings ℤ
dual_client = record initialize {
  mode = TestMode.dual_test;
  flow_id = pos 7;
  thread_mode = ThreadMode.client;
}

abbrev zero_hdr : ClientHdr
zero_hdr = record {
  flags = 0;
  num_threads = 0;
  port = 0;
  bufferlen = 0;
  win_band = 0;
  amount = 0;
  flow_id = pos 0;
  kind = 0;
  length = 0;
  extend_flags = 0;
  version_u = 0;
  version_l = 0;
  reserved = 0;
  rate = 0;
  rate_units = 0;
  realtime = 0;
}

-- The same client, which asks for the version of its server.
abbrev asking : ThreadSettings ℤ
asking = record dual_client { flags_extend = 1 }

client_hdr-Mirrors_example :
    Returns
      (Mirrors asking initialize 0)
      (generate_client_settings (λ a. []) initialize (generate_client_hdr 2 10 asking zero_hdr).0)
unfolding initialize
client_hdr-Mirrors_example =
    client_hdr-Mirrors (λ a. []) 2 10 asking initialize zero_hdr
      (record {
        is_both = refl;
        is_known = λ e. ground arith;
        amount_pos = omega arith;
        amount_max = omega arith;
        port_max = omega arith;
        listen_port_max = omega arith;
      })

exchange-known_example :
    (read_client_header 3 4 false (generate_client_hdr 2 10 asking zero_hdr).0.flags (λ n. pos n)
      ≡ some (ack_for true 3 4))
    × ((initiate_server 2 10 asking zero_hdr 1470 (pos 64) (ack_for true 3 4) PeerVersion.unset).1
        ≡ (if true then PeerVersion.known 3 4 else PeerVersion.unset))
unfolding initialize initiate_server generate_client_hdr fill_extend hdr_xchange
exchange-known_example =
    exchange-known 2 10 3 4 asking zero_hdr 1470 64 (pos 64) PeerVersion.unset (λ n. pos n) refl
      refl refl (λ n h. refl)
