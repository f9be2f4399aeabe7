-- ===== src/Valarray.antt =====
-- `std::valarray<uint64_t>` (`BenchResVec` of utilLib/include/common/sharedDeclarations.h): the
-- operators that the source uses. On operands of unequal sizes they are undefined.
pub mod Laws
use distributed_math_arh.Prelude.{
  ℕ, ◌/◌, List, [], ◌∷◌, map, nat_beq, if◌then◌else◌, add64, sub64, mul64,
}
use distributed_math_arh.Outcome.{Outcome, ok, undefined, ◌>>=◌}

unfoldable pub pointwise : (ℕ → ℕ → Outcome ℕ) → List ℕ → List ℕ → Outcome (List ℕ)
pointwise f [] [] = ok []
pointwise f (x ∷ xs) (y ∷ ys) = do z ← f x y; zs ← pointwise f xs ys; ok (z ∷ zs)
pointwise f [] (y ∷ ys) = undefined
pointwise f (x ∷ xs) [] = undefined

abbrev pub quotient : ℕ → ℕ → Outcome ℕ
quotient x y = if nat_beq y 0 then undefined else ok (x / y)

-- a += b
abbrev pub add_assign : List ℕ → List ℕ → Outcome (List ℕ)
add_assign = pointwise (λ x y. ok (add64 x y))

-- a -= b
abbrev pub sub_assign : List ℕ → List ℕ → Outcome (List ℕ)
sub_assign = pointwise (λ x y. ok (sub64 x y))

-- a /= b
abbrev pub div_assign : List ℕ → List ℕ → Outcome (List ℕ)
div_assign = pointwise quotient

-- a * s
abbrev pub scale : List ℕ → ℕ → List ℕ
scale xs s = map (λ x. mul64 x s) xs

-- s / a
unfoldable pub divide_scalar : ℕ → List ℕ → Outcome (List ℕ)
divide_scalar s [] = ok []
divide_scalar s (x ∷ xs) = do z ← quotient s x; zs ← divide_scalar s xs; ok (z ∷ zs)
