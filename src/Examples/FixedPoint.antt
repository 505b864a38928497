-- ===== src/Examples/FixedPoint.antt =====
-- Numbers with six decimals in place of a float64, from zero up: an instance of its laws. What would
-- be below zero is zero, and what has more decimals is cut off.
use native.Mathlib.Nat.{mul-le-mul_right, div-le_of_le-mul}
use openshift_update_experie.Prelude.{
  ℕ, zero, suc, ◌+◌, ◌-◌, ◌*◌, ◌/◌, ◌%◌, ◌^◌, ◌≤◌, ℤ, pos, negsuc, ◌≡◌, true, ltb, leb, arith,
}
use openshift_update_experie.Versions.{Float64, IsOrdered}

le_of : (m n : ℕ) → leb m n ≡ true → m ≤ n
le_of m n h = ground arith

of_le : (m n : ℕ) → m ≤ n → leb m n ≡ true
of_le m n h = ground arith

-- A number is kept as that many millionths.
abbrev millionths : ℕ
millionths = 1000000

abbrev of_integer : ℤ → ℕ
of_integer (pos n) = n * millionths
of_integer (negsuc n) = 0

abbrev power : ℕ → ℕ → ℕ
power x zero = millionths
power x (suc n) = x * power x n / millionths

abbrev pub fixed_point : Float64 ℕ
fixed_point = record {
  of_int = of_integer;
  decimal = λ n k. n * millionths / 10 ^ k;
  plus = λ x y. x + y;
  minus = λ x y. x - y;
  mul = λ x y. x * y / millionths;
  div = λ x y. x * millionths / y;
  pow = λ x y. power x (y / millionths);
  lt = ltb;
  le = leb;
  to_int64 = λ x. pos (x / millionths);
  to_int32 = λ x. x / millionths % 2 ^ 32;
}

quotients_le : (a b : ℕ) → a ≤ b → a / millionths ≤ b / millionths
quotients_le a b h = omega (arith, h)

pub fixed_point-IsOrdered : IsOrdered fixed_point
fixed_point-IsOrdered = record {
  le_trans = λ x y z h k. ground arith;
  whole_le = λ m n h b. of_le (m * millionths) (n * millionths) (omega (arith, h));
  one_mul = λ n b. omega arith;
  mul_le = λ x y k z h o b.
      of_le (x * (k * millionths) / millionths) (y * (k * millionths) / millionths) (
        quotients_le (x * (k * millionths)) (y * (k * millionths))
          (mul-le-mul_right (k * millionths) (le_of x y h)));
  div_le_one = λ m n h k b.
      of_le (m * millionths * millionths / (n * millionths)) (1 * millionths)
        (div-le_of_le-mul (n * millionths) (omega (arith, h)));
  zero_le_div = λ m n a h b. ground arith;
  zero_mul_le = λ x k h o b. ground arith;
  to_int32_whole = λ n h. omega (arith, h);
  to_int32_le = λ x n h k l.
      let below : x ≤ n * millionths = le_of x (n * millionths) l in omega (arith, h, below);
}
