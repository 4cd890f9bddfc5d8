-- ===== src/Prelude/Double.antt =====
-- The C type `double`: its operations are the machine's, a parameter of the model. A definition
-- that computes with doubles takes the type `W` of their values and this interface over it.
use flexfcapf.Prelude.Int.{ℤ}
use mathlib.Core.Bool.{Bool}

pub record Double (W : Type 0) : Type 0 where
  pub of_int : ℤ → W  -- the conversion from an integer
  pub to_int : W → ℤ  -- the conversion to an integer, which cuts off the fraction
  pub add : W → W → W
  pub sub : W → W → W
  pub mul : W → W → W
  pub div : W → W → W
  pub lt : W → W → Bool
  pub eq : W → W → Bool
  pub flt_max : W
  pub flt_min : W

module _ {W : Type 0} ⦃d : Double W⦄ where
  abbrev pub of_int : ℤ → W
  of_int n = d.of_int n

  abbrev pub to_int : W → ℤ
  to_int x = d.to_int x

  abbrev pub add_w : W → W → W
  add_w x y = d.add x y

  abbrev pub sub_w : W → W → W
  sub_w x y = d.sub x y

  abbrev pub mul_w : W → W → W
  mul_w x y = d.mul x y

  abbrev pub div_w : W → W → W
  div_w x y = d.div x y

  abbrev pub ltb_w : W → W → Bool
  ltb_w x y = d.lt x y

  abbrev pub eqb_w : W → W → Bool
  eqb_w x y = d.eq x y
