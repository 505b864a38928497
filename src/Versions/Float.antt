-- ===== src/Versions/Float.antt =====
-- What internal/controller/clusterversions/impl.go and cmd/oc-update-status/nodes.go do with a float64.
use openshift_update_experie.Prelude.{ℕ, ℤ, pos, ◌≡◌, ◌≤◌, ◌<◌, ◌^◌, Bool, true}

pub record Float64 (F : Type 0) : Type 0 where
  pub of_int : ℤ → F
  -- The decimal constant `n / 10 ^ k`, nearest to it.
  pub decimal : ℕ → ℕ → F
  pub plus : F → F → F
  pub minus : F → F → F
  pub mul : F → F → F
  pub div : F → F → F
  pub pow : F → F → F
  pub lt : F → F → Bool
  pub le : F → F → Bool
  -- The conversions, which cut off the fraction; the int32 as its bit pattern.
  pub to_int64 : F → ℤ
  pub to_int32 : F → ℕ

abbrev pub whole : {F : Type 0} → Float64 F → ℕ → F
whole float n = float.of_int (pos n)

-- What is relied on, which IEEE 754 gives with its rounding to nearest: integers of 31 bits are exact,
-- and rounding keeps the order. The products and quotients are those of finite numbers, so that none
-- is infinite or not a number.
pub record IsOrdered {F : Type 0} (float : Float64 F) : Type 0 where
  pub le_trans : (x y z : F) → float.le x y ≡ true → float.le y z ≡ true → float.le x z ≡ true
  pub whole_le : (m n : ℕ) → m ≤ n → n < 2 ^ 31 → float.le (whole float m) (whole float n) ≡ true
  pub one_mul : (n : ℕ) → n < 2 ^ 31 → float.mul (whole float 1) (whole float n) ≡ whole float n
  pub mul_le :
      (x y : F) (k : ℕ)
      → float.le (whole float 0) x ≡ true
      → float.le x y ≡ true
      → float.le y (whole float 1) ≡ true
      → k < 2 ^ 31
      → float.le (float.mul x (whole float k)) (float.mul y (whole float k)) ≡ true
  pub div_le_one :
      (m n : ℕ)
      → m ≤ n
      → 0 < n
      → n < 2 ^ 31
      → float.le (float.div (whole float m) (whole float n)) (whole float 1) ≡ true
  pub zero_le_div :
      (m n : ℕ)
      → m < 2 ^ 31
      → 0 < n
      → n < 2 ^ 31
      → float.le (whole float 0) (float.div (whole float m) (whole float n)) ≡ true
  pub zero_mul_le :
      (x : F) (k : ℕ)
      → float.le (whole float 0) x ≡ true
      → float.le x (whole float 1) ≡ true
      → k < 2 ^ 31
      → float.le (whole float 0) (float.mul x (whole float k)) ≡ true
  pub to_int32_whole : (n : ℕ) → n < 2 ^ 31 → float.to_int32 (whole float n) ≡ n
  pub to_int32_le :
      (x : F) (n : ℕ)
      → n < 2 ^ 31
      → float.le (whole float 0) x ≡ true
      → float.le x (whole float n) ≡ true
      → float.to_int32 x ≤ n
