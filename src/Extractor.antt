-- ===== src/Extractor.antt =====
-- iperf2-code/src/Extractor.c: the file that a client sends, in blocks. A file is what is left to read of it and whether its
-- end has been met.
pub mod Blocks
use flexfcapf.Prelude.{
  ℕ, Bool, true, false, not, ◌&&◌, ◌||◌, Option, none, some, List, [], if◌then◌else◌, ltb, length,
  take, drop,
}
use flexfcapf.Prelude.Int.{ℤ, pos, ◌-ℤ◌, to_unsigned}

-- An open file; `feof` is set by a read that comes short.
pub record File : Type 0 where
  pub left : List ℕ
  pub eof : Bool

-- `Extractor_file` and `Extractor_size`
pub record Extractor : Type 0 where
  pub file : Option File
  pub size : ℤ

-- `Extractor_Initialize`, from what `fopen` gives.
unfoldable pub extractor_initialize : Option File → ℤ → Extractor → Extractor
extractor_initialize none size x = record x { file = none }
extractor_initialize (some f) size x = record { file = some f; size = size }

-- `Extractor_InitializeFile`
unfoldable pub extractor_initialize_file : File → ℤ → Extractor → Extractor
extractor_initialize_file f size x = record { file = some f; size = size }

-- `Extractor_canRead`
abbrev pub is_readable : Option File → Bool
is_readable none = false
is_readable (some f) = not f.eof

unfoldable pub can_read : Extractor → Bool
can_read x = is_readable x.file

-- `fread` of bytes.
unfoldable pub fread : ℕ → File → List ℕ × File
fread n f = (take n f.left, record { left = drop n f.left; eof = f.eof || ltb (length f.left) n })

-- The size as `fread` takes it, a `size_t`.
abbrev pub read_size : Extractor → ℕ
read_size x = to_unsigned 64 x.size

abbrev pub next_block : Option File → Extractor → List ℕ × Extractor
next_block none x = ([], x)
next_block (some f) x =
    let (block, f') = fread (read_size x) f in (block, record x { file = some f' })

-- `Extractor_getNextDataBlock`
unfoldable pub get_next_data_block : Extractor → List ℕ × Extractor
unfolding can_read fread
get_next_data_block x = if can_read x then next_block x.file x else ([], x)

-- `Extractor_reduceReadSize`
unfoldable pub reduce_read_size : ℤ → Extractor → Extractor
reduce_read_size delta x = record x { size = x.size -ℤ delta }
