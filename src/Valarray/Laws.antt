-- ===== src/Valarray/Laws.antt =====
-- Sizes and entries of the results of valarray operators.
use distributed_math_arh.Prelude.{
  ℕ, zero, suc, ◌≡◌, ◌≢◌, refl, ap, List, [], ◌∷◌, some, get_elem?, get_or, length, arith, add64,
  sub64, mul64, ◌/◌, ◌<◌, All,
}
use distributed_math_arh.Outcome.{Outcome, ok, undefined}
use distributed_math_arh.Valarray.{pointwise, add_assign, sub_assign, div_assign, scale}

pub length-pointwise :
    (f : ℕ → ℕ → Outcome ℕ) (xs ys zs : List ℕ)
    → pointwise f xs ys ≡ ok zs
    → (length zs ≡ length xs) × (length ys ≡ length xs)
unfolding pointwise
length-pointwise f [] [] zs h = ground arith
length-pointwise f (x ∷ xs) (y ∷ ys) [] h = ground arith
length-pointwise f (x ∷ xs) (y ∷ ys) (z ∷ zs) h = ground (arith, length-pointwise f xs ys zs)
length-pointwise f [] (y ∷ ys) zs h = cc
length-pointwise f (x ∷ xs) [] zs h = cc

-- Entry by entry, a position past the end reads 0 on all sides.
pub get_or-add_assign :
    (xs ys zs : List ℕ) (i : ℕ)
    → add_assign xs ys ≡ ok zs
    → get_or zs i 0 ≡ add64 (get_or xs i 0) (get_or ys i 0)
unfolding pointwise
get_or-add_assign [] [] zs i h = ground arith
get_or-add_assign (x ∷ xs) (y ∷ ys) [] i h = ground arith
get_or-add_assign (x ∷ xs) (y ∷ ys) (z ∷ zs) zero h = ground arith
get_or-add_assign (x ∷ xs) (y ∷ ys) (z ∷ zs) (suc i) h =
    ground (arith, get_or-add_assign xs ys zs i)
get_or-add_assign [] (y ∷ ys) zs i h = cc
get_or-add_assign (x ∷ xs) [] zs i h = cc

pub get_or-sub_assign :
    (xs ys zs : List ℕ) (i : ℕ)
    → sub_assign xs ys ≡ ok zs
    → get_or zs i 0 ≡ sub64 (get_or xs i 0) (get_or ys i 0)
unfolding pointwise
get_or-sub_assign [] [] zs i h = ground arith
get_or-sub_assign (x ∷ xs) (y ∷ ys) [] i h = ground arith
get_or-sub_assign (x ∷ xs) (y ∷ ys) (z ∷ zs) zero h = ground arith
get_or-sub_assign (x ∷ xs) (y ∷ ys) (z ∷ zs) (suc i) h =
    ground (arith, get_or-sub_assign xs ys zs i)
get_or-sub_assign [] (y ∷ ys) zs i h = cc
get_or-sub_assign (x ∷ xs) [] zs i h = cc

pub add_assign_mismatch : (xs ys : List ℕ) → length xs ≢ length ys → add_assign xs ys ≡ undefined
unfolding pointwise
add_assign_mismatch [] [] h = absurd (h refl)
add_assign_mismatch (x ∷ xs) (y ∷ ys) h =
    ground (arith, add_assign_mismatch xs ys (λ e. h (ap suc e)))
add_assign_mismatch [] (y ∷ ys) h = refl
add_assign_mismatch (x ∷ xs) [] h = refl

div_assign_total :
    (xs ys : List ℕ)
    → length xs ≡ length ys
    → All (λ y. 0 < y) ys
    → (zs : List ℕ) × (div_assign xs ys ≡ ok zs)
unfolding pointwise
div_assign_total [] [] same pos = ([], refl)
div_assign_total (x ∷ xs) (y ∷ ys) same pos =
    let (zs, e) = div_assign_total xs ys (omega arith) pos.1 in ((x / y) ∷ zs, ground arith)
div_assign_total [] (y ∷ ys) same pos = absurd (omega arith)
div_assign_total (x ∷ xs) [] same pos = absurd (omega arith)

get_elem?-div_assign :
    (xs ys zs : List ℕ) (j : ℕ)
    → div_assign xs ys ≡ ok zs
    → j < length ys
    → get_elem? zs j ≡ some (get_or xs j 0 / get_or ys j 0)
unfolding pointwise
get_elem?-div_assign [] [] zs j h within = absurd (omega arith)
get_elem?-div_assign (x ∷ xs) (y ∷ ys) [] j h within = ground arith
get_elem?-div_assign (x ∷ xs) (y ∷ ys) (z ∷ zs) zero h within = ground arith
get_elem?-div_assign (x ∷ xs) (y ∷ ys) (z ∷ zs) (suc j) h within =
    ground (arith, get_elem?-div_assign xs ys zs j)
get_elem?-div_assign [] (y ∷ ys) zs j h within = cc
get_elem?-div_assign (x ∷ xs) [] zs j h within = cc

-- A division by positive entries, of as many, is defined; an entry is the quotient of two entries.
pub div_assign_ok :
    (xs ys : List ℕ) (j : ℕ)
    → length xs ≡ length ys
    → All (λ y. 0 < y) ys
    → j < length ys
    → (zs : List ℕ) × (div_assign xs ys ≡ ok zs)
      × (get_elem? zs j ≡ some (get_or xs j 0 / get_or ys j 0))
div_assign_ok xs ys j same pos within =
    let (zs, e) = div_assign_total xs ys same pos in
    (zs, e, get_elem?-div_assign xs ys zs j e within)

pub get_or-scale : (xs : List ℕ) (s j : ℕ) → get_or (scale xs s) j 0 ≡ mul64 (get_or xs j 0) s
get_or-scale [] s j = omega arith
get_or-scale (x ∷ xs) s zero = refl
get_or-scale (x ∷ xs) s (suc j) = get_or-scale xs s j
