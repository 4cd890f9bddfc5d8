-- ===== src/Styles.antt =====
-- The lines that the report styles print: the formats of iperf2-code/src/Locale.c with what `printf` reads for each, and the
-- values that iperf2-code/src/ReportDefault.c and iperf2-code/src/ReportCSV.c hand to it. A text is put together by `printf`,
-- which is the C library's.
pub mod Default
pub mod Texts
pub mod Csv
pub mod Fits
pub mod Heads
use Prim.Native.String.{String}
use flexfcapf.Prelude.{ℕ, Bool, true, false, ◌&&◌, List, [], ◌∷◌, ◌++◌}
use flexfcapf.Prelude.Int.{ℤ}

-- What a conversion of a format reads: `%s`, `%d`, `%u`, a `PRIdMAX`, `%lld`, or `%f` and `%g`.
pub data Conversion : Type 0 where
  text_c int_c unsigned_c max_c long_c double_c : Conversion

-- An argument: a text, or what `byte_snprintf` has made of a number; an `int`; a number of 64 bits; a `double`.
pub data Arg (W : Type 0) : Type 0 where
  text : String → Arg W
  amount : W × ℕ × String → Arg W
  int : ℤ → Arg W
  wide : ℤ → Arg W
  double : W → Arg W

-- The formats of the transfer reports, as they are with TCP_INFO and 64-bit numbers.
pub data Format : Type 0 where
  bw_header bw sum_bw jitter_loss_header jitter_loss sum_jitter_loss : Format
  read_header read sum_read write_header write sum_write : Format
  pps_header pps sum_pps jitter_header jitter jitter_suppress : Format
  outoforder sum_outoforder datagrams sum_datagrams server_reporting csv_bw csv_jitter_loss : Format

-- `[%3d] %4.1f-%4.1f sec  %ss  %ss/sec` and the same of a sum.
abbrev pub sum_part : List Conversion
sum_part = double_c ∷ double_c ∷ text_c ∷ text_c ∷ []

abbrev pub transfer_part : List Conversion
transfer_part = int_c ∷ sum_part

-- `%6.3f ms %4"PRIdMAX"/%5"PRIdMAX" (%.2g%%)`
abbrev pub loss_part : List Conversion
loss_part = double_c ∷ max_c ∷ max_c ∷ double_c ∷ []

-- `%d    %d:%d:%d:%d:%d:%d:%d:%d`
abbrev pub bins_part : List Conversion
bins_part = int_c ∷ int_c ∷ int_c ∷ int_c ∷ int_c ∷ int_c ∷ int_c ∷ int_c ∷ int_c ∷ []

unfoldable pub conversions : Format → List Conversion
conversions bw_header = []
conversions bw = transfer_part
conversions sum_bw = sum_part
conversions jitter_loss_header = []
conversions jitter_loss = transfer_part ++ loss_part
conversions sum_jitter_loss = sum_part ++ loss_part
conversions read_header = double_c ∷ []
conversions read = transfer_part ++ bins_part
conversions sum_read = sum_part ++ bins_part
conversions write_header = []
conversions write = transfer_part ++ (int_c ∷ int_c ∷ int_c ∷ int_c ∷ unsigned_c ∷ [])
conversions sum_write = sum_part ++ (int_c ∷ int_c ∷ int_c ∷ [])
conversions pps_header = []
conversions pps = transfer_part ++ (double_c ∷ [])
conversions sum_pps = sum_part ++ (double_c ∷ [])
conversions jitter_header = []
conversions jitter =
    transfer_part ++ (loss_part ++ (double_c ∷ double_c ∷ double_c ∷ double_c ∷ double_c ∷ []))
conversions jitter_suppress = transfer_part ++ (loss_part ++ (double_c ∷ []))
conversions outoforder = int_c ∷ double_c ∷ double_c ∷ int_c ∷ []
conversions sum_outoforder = double_c ∷ double_c ∷ int_c ∷ []
conversions datagrams = int_c ∷ int_c ∷ []
conversions sum_datagrams = int_c ∷ []
conversions server_reporting = int_c ∷ []
conversions csv_bw = text_c ∷ text_c ∷ int_c ∷ double_c ∷ double_c ∷ long_c ∷ long_c ∷ []
conversions csv_jitter_loss =
    text_c ∷ text_c ∷ int_c ∷ double_c ∷ double_c ∷ long_c ∷ long_c ∷ double_c ∷ int_c ∷ int_c
    ∷ double_c ∷ int_c ∷ []

-- One call of `printf`.
pub record Line (W : Type 0) : Type 0 where
  pub format : Format
  pub args : List (Arg W)

abbrev pub print : {W : Type 0} → Format → List (Arg W) → Line W
print f a = record { format = f; args = a }
