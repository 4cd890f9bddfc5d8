-- ===== src/Numbers.antt =====
-- iperf2-code/src/stdio.c: numbers with a suffix, read and printed. The C library's conversions of texts are
-- parameters.
pub mod Adaptive
use Prim.Native.Nat.{ℕ, zero, suc, ◌+◌, ◌-◌, ◌*◌}
use Prim.Native.String.{String}
use flexfcapf.Prelude.{
  Bool, true, false, not, ◌&&◌, Option, none, some, List, [], ◌∷◌, ◌==◌, if◌then◌else◌, ◌>>=◌, leb,
  get_elem?,
}
use flexfcapf.Prelude.Int.{ℤ, pos}
use flexfcapf.Prelude.Double.{Double, of_int, to_int, mul_w, div_w, ltb_w}

-- A text that the program reads byte by byte.
abbrev pub Text : Type 0
Text = List ℕ

-- What the C library makes of a text.
pub record CLibrary (W : Type 0) : Type 0 where
  pub strtoll : Text → Option (ℤ × Text)  -- the number and the rest, or an error
  pub strtof : Text → W × Text  -- the number and the rest
  pub atof : Text → W
  pub atoi : Text → ℤ
  pub strtol : Text → ℤ  -- with base 0
  pub scan : Text → W × ℕ  -- sscanf with "%lf%c"; 0 for no character

abbrev pub is_upper : ℕ → Bool
is_upper c = leb b'A' c && leb c b'Z'

abbrev pub to_upper : ℕ → ℕ
to_upper c = if leb b'a' c && leb c b'z' then c - 32 else c

-- `kLabel_Byte` and `kLabel_bit`
abbrev pub labels : Bool → List String
labels true = "Byte" ∷ "KByte" ∷ "MByte" ∷ "GByte" ∷ []
labels false = "bit" ∷ "Kbit" ∷ "Mbit" ∷ "Gbit" ∷ []

module _ {W : Type 0} ⦃d : Double W⦄ where
  abbrev pub times : W → ℕ → W
  times x n = mul_w x (of_int (pos n))

  abbrev pub quotient : W → ℕ → W
  quotient x n = div_w x (of_int (pos n))

  -- `switch ( suffix )`
  unfoldable pub scale_suffix : W → ℕ → W
  scale_suffix x c =
      if c == b'G'
      then times x (1024 * 1024 * 1024)
      else if c == b'M'
      then times x (1024 * 1024)
      else if c == b'K'
      then times x 1024
      else if c == b'g'
      then times x (1000 * 1000 * 1000)
      else if c == b'm'
      then times x (1000 * 1000)
      else if c == b'k'
      then times x 1000
      else x

  unfoldable pub byte_atof : CLibrary W → Text → W
  unfolding scale_suffix
  byte_atof lib text = let (x, c) = lib.scan text in scale_suffix x c

  unfoldable pub byte_atoi : CLibrary W → Text → ℤ
  unfolding scale_suffix
  byte_atoi lib text = let (x, c) = lib.scan text in to_int (scale_suffix x c)

  -- The loop of the adaptive formats, for one step between the units; `conv` rises to 4 at most.
  unfoldable pub adapt : (fuel : ℕ) → (step : ℕ) → W → (conv : ℕ) → ℕ
  adapt zero step x conv = conv
  adapt (suc fuel) step x conv =
      let rest = adapt fuel step (quotient x step) (conv + 1) in
      if not (ltb_w x (of_int (pos step))) && leb conv 3 then rest else conv

  -- The index of the unit: `kConv_Unit` to `kConv_Giga`, or one past it.
  unfoldable pub conversion_index : W → ℕ → ℕ
  conversion_index x format =
      if to_upper format == b'B'
      then 0
      else if to_upper format == b'K'
      then 1
      else if to_upper format == b'M'
      then 2
      else if to_upper format == b'G'
      then 3
      else if is_upper format
      then adapt 5 1024 x 0
      else adapt 5 1000 x 0

  -- `kConversion` and `kConversionForBits`
  abbrev pub conversions : ℕ → List W
  conversions step =
      let unit = of_int (pos 1) in
      unit
      ∷ quotient unit step
      ∷ quotient (quotient unit step) step
      ∷ quotient (quotient (quotient unit step) step) step
      ∷ []

  -- How many digits stand after the point.
  abbrev pub decimals : W → ℕ
  decimals x =
      if ltb_w x (quotient (of_int (pos 9995)) 1000)
      then 2
      else if ltb_w x (quotient (of_int (pos 9995)) 100)
      then 1
      else 0

  -- The number in the unit, its digits after the point and its label; no result where a table is read past its
  -- end. The first argument says whether bytes are printed.
  unfoldable pub in_unit : Bool → W → ℕ → Option (W × ℕ × String)
  in_unit is_bytes x conv =
      get_elem? (conversions (if is_bytes then 1024 else 1000)) conv >>= λ factor.
      get_elem? (labels is_bytes) conv >>= λ label.
      some (mul_w x factor, decimals (mul_w x factor), label)

  -- `byte_snprintf`, up to the layout of the text
  unfoldable pub byte_snprintf : W → ℕ → Option (W × ℕ × String)
  byte_snprintf bytes format =
      let x = if is_upper format then bytes else times bytes 8 in
      in_unit (is_upper format) x (conversion_index x format)
