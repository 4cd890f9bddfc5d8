-- ===== src/Styles/Texts.antt =====
-- The texts that `byte_snprintf` makes in iperf2-code/src/ReportDefault.c.
use Prim.Native.String.{String}
use flexfcapf.Prelude.{ℕ, Option, none, some, ◌>>=◌, Ensures}
use flexfcapf.Prelude.Double.{Double}
use flexfcapf.Numbers.{to_upper, byte_snprintf}
use flexfcapf.Styles.{amount}
use flexfcapf.Styles.Default.{Amounts, amounts_of}

module _ {W : Type 0} ⦃d : Double W⦄ where
  -- The two texts come from `byte_snprintf`.
  pub Ensures-amounts_of :
      {A : Type 0} (P : A → Type 0) (total speed : W) (format : ℕ) (f : Amounts W → Option A)
      → ((a b : W × ℕ × String) → Ensures P (f (amount a, amount b)))
      → Ensures P (amounts_of total speed format >>= f)
  Ensures-amounts_of P total speed format f h =
      by_texts P (byte_snprintf total (to_upper format)) (byte_snprintf speed format) f h
    where
      by_texts :
          {A : Type 0} (P : A → Type 0) (x y : Option (W × ℕ × String)) (f : Amounts W → Option A)
          → ((a b : W × ℕ × String) → Ensures P (f (amount a, amount b)))
          → Ensures P ((x >>= λ a. y >>= λ b. some (amount a, amount b)) >>= f)
      by_texts P none y f h = tt
      by_texts P (some a) none f h = tt
      by_texts P (some a) (some b) f h = h a b
