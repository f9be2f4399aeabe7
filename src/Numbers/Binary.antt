-- ===== src/Numbers/Binary.antt =====
-- The field of two elements: numbers that are exact, for examples.
use distributed_math_arh.Prelude.{Bool, true, false, ◌&&◌, not, nat_beq, ◌%◌, arith}
use distributed_math_arh.Numbers.{Numbers, IsExact}

abbrev pub xor : Bool → Bool → Bool
xor false b = b
xor true b = not b

instance abbrev pub binary : Numbers Bool
binary = record {
  plus = xor;
  minus = xor;
  times = ◌&&◌;
  over = ◌&&◌;
  negative = λ a. a;
  sin = λ a. a;
  cos = not;
  sqrt = λ a. a;
  pi = true;
  equal = λ a b. not (xor a b);
  lit = λ n. nat_beq (n % 2) 1;
}

pub binary-IsExact : IsExact binary
binary-IsExact = ground arith
