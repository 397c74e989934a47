-- ===== src/Float/Scaled.antt =====
-- Whole numbers in place of `f64`: a value of the parameter at which the laws hold.
use xboxproxy.Prelude.{ℤ, pos, negsuc, pos_part, neg_part, sub_ℕ}
use xboxproxy.Prelude.{◌+◌, ◌*◌, ◌/◌, ◌^◌, ◌≡◌, true, false, some, compare, Ordering, arith}
use xboxproxy.Float.{Float, exceeds, IsIeee}

abbrev mul_ℤ : ℤ → ℤ → ℤ
mul_ℤ a b =
    sub_ℕ (pos_part a * pos_part b + neg_part a * neg_part b)
      (pos_part a * neg_part b + neg_part a * pos_part b)

abbrev pub scaled : Float
scaled = record {
  Carrier = ℤ;
  of_u64 = pos;
  of_i64 = λ a. a;
  min_value = negsuc (2 ^ 1024);
  mul = mul_ℤ;
  sub = λ a b. sub_ℕ (pos_part a + neg_part b) (neg_part a + pos_part b);
  div = λ a b. pos (pos_part a / pos_part b);
  partial_cmp = λ a b. some (compare (pos_part a + neg_part b) (pos_part b + neg_part a));
}

scaled_number : (x : ℤ) → scaled.partial_cmp x x ≡ some Ordering.eq
scaled_number x = ground arith

scaled_asymm : (x y : ℤ) → exceeds scaled x y ≡ true → exceeds scaled y x ≡ false
scaled_asymm x y h = ground arith

scaled_trans :
    (x y z : ℤ)
    → exceeds scaled x y ≡ false
    → exceeds scaled y z ≡ false
    → exceeds scaled x z ≡ false
scaled_trans x y z h k = ground arith

pub scaled-IsIeee : IsIeee scaled
scaled-IsIeee = record {
  number_of_u64 = λ n. scaled_number (pos n);
  number_min_value = scaled_number (negsuc (2 ^ 1024));
  number_mul = λ x h. scaled_number (scaled.mul x (scaled.of_u64 1000));
  number_sub = λ x n h. scaled_number (scaled.sub x (scaled.of_u64 n));
  exceeds_asymm = λ x y h k. scaled_asymm x y;
  exceeds_trans = λ x y z h k l. scaled_trans x y z;
}
