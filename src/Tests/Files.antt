-- ===== src/Tests/Files.antt =====
-- The file that a client sends, and the buffers.
use flexfcapf.Prelude.{ℕ, ◌≤◌, refl, none, false, List, [], ◌∷◌, Returns, Ensures, arith}
use flexfcapf.Prelude.Int.{ℤ, pos, pos_part}
use flexfcapf.Options.{ThreadSettings, initialize, set_flag, udp_flag}
use flexfcapf.Extractor.{Extractor, extractor_initialize_file}
use flexfcapf.Extractor.Blocks.{read_all, BlocksOf, read_all-blocks}
use flexfcapf.Buffers.{client_buffer, listener_buffer, ack_place, capacity}
use flexfcapf.Buffers.Room.{IsRoomy, client_buffer-IsRoomy, stop, ack_place-fits}
use flexfcapf.Tests.Fixed.{fixed}

abbrev contents : List ℕ
contents = 72 ∷ 101 ∷ 108 ∷ 108 ∷ 111 ∷ 33 ∷ 10 ∷ []

abbrev closed : Extractor
closed = record { file = none; size = pos 0 }

read_all-blocks_example : Returns (BlocksOf 3 contents) (
    read_all 8 (extractor_initialize_file (record { left = contents; eof = false }) (pos 3) closed))
read_all-blocks_example =
    read_all-blocks 8 3 contents closed (omega arith) (omega arith) (omega arith)

-- A client with datagrams of 20 bytes.
abbrev short_udp : ThreadSettings ℤ
short_udp = record (set_flag udp_flag initialize) { buf_len = pos 20 }

client_buffer-IsRoomy_example : IsRoomy none (client_buffer short_udp)
client_buffer-IsRoomy_example = client_buffer-IsRoomy none short_udp 20 (omega arith) refl

abbrev long_udp : ThreadSettings ℤ
long_udp = record short_udp { buf_len = pos 200 }

ack_place-fits_example :
    Ensures
      (λ p.
        (stop p ≤ capacity long_udp.buf_len)
        × (stop p ≤ pos_part (listener_buffer long_udp).buf_len))
      (ack_place (listener_buffer long_udp))
ack_place-fits_example = ack_place-fits long_udp 200 refl
