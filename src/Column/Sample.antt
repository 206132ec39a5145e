-- ===== src/Column/Sample.antt =====
-- Data for the tests: doubles are integers here, whose sums round nothing.
use lark.Base.Int.{ℤ, pos, ◌+ℤ◌, ◌-ℤ◌, ◌*ℤ◌, ltb_ℤ}
use lark.Base.{true}
use lark.Base.Decimal.{scan_digits, to_string}
use lark.Column.Quantize.{Machine}
use lark.Column.Expr.{Numerals}
use lark.Column.Numbers.{Scalar, Floating, wrap, leb_ℤ, eq_ℤ, magnitude}

abbrev pub numbers : Scalar ℤ ℤ
numbers = record {
  nought = pos 0;
  add = ◌+ℤ◌;
  sub = ◌-ℤ◌;
  mul = ◌*ℤ◌;
  neg = λ x. pos 0 -ℤ x;
  abs = magnitude;
  lt = ltb_ℤ;
  le = leb_ℤ;
  eq = eq_ℤ;
  of_double = λ x. x;
  to_double = λ x. x;
}

-- The quotient and the root are not computed in the tests.
abbrev pub floating : Floating ℤ ℤ
floating = record {
  single = numbers;
  double = numbers;
  div = λ x y. x;
  sqrt = λ x. x;
  of_int = λ x. x;
  to_int64 = wrap 64;
  to_int32 = wrap 32;
  overflow = wrap;
}

abbrev pub machine : Machine ℤ ℤ
machine = record {
  single_of_int = λ x. x;
  single_div = λ x y. x;
  to_int8 = wrap 8;
  exp = λ x. x;
  log = λ x. x;
}

abbrev pub numerals : Numerals ℤ
numerals = record { stod = λ s. pos (scan_digits 0 s); to_string = to_string; is_whole = λ z. true }
