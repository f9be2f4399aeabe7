-- ===== src/Dipoles/Examples.antt =====
-- Tests and instances for `Dipoles`, over the field of two elements.
use distributed_math_arh.Prelude.{
  ℕ, zero, suc, ◌*◌, ◌<◌, ◌≡◌, refl, Bool, true, false, ◌&&◌, arith, ◌≢◌, [], ◌∷◌, get_or,
}
use distributed_math_arh.Numbers.Sums.{product, applied, sum}
use distributed_math_arh.Numbers.Binary.{xor, binary, binary-IsExact}
use distributed_math_arh.Dipoles.{
  Coordinates, flat, nested, Dipoles, Eigen, no_dipoles, new_dipoles, set_new_coordinates,
  load_from_matrix, get_matrixx, squares, init_arrays, set_matrixes, solve, initial_right_part,
}
use distributed_math_arh.Dipoles.State.{
  SameSystem, set_new_coordinates-new_dipoles, load_from_matrix-get_matrixx,
  load_from_matrix-IsInitialised,
}
use distributed_math_arh.Dipoles.Symmetry.{new_dipoles_symmetric}
use distributed_math_arh.Dipoles.Solution.{IsAlgebra, IsRegular, Solves, Commutes, solve_satisfies}

-- Two dipoles: x is 0 and 1, y is 1 and 1.
abbrev two_dipoles : Coordinates Bool
two_dipoles = flat 4 (λ i. get_or (false ∷ true ∷ true ∷ true ∷ []) i false)

-- Products by their definition, and systems of two equations by Cramer's rule.
abbrev cramer : Eigen Bool
cramer = record {
  multiply = product;
  apply = applied;
  lu_solve = λ n m v k. elim k [
    | zero ↦ xor (m 1 1 && v 0) (m 0 1 && v 1)
    | suc k ↦ xor (m 0 0 && v 1) (m 1 0 && v 0)
  ];
}

cramer-IsAlgebra : IsAlgebra cramer
cramer-IsAlgebra = record { multiply_lem = λ n a b. refl; apply_lem = λ n a v. refl }

-- The matrix of one dipole with the blocks (1 1; 1 0) and (1 0; 0 1), by columns of the left half.
abbrev corners : ℕ → ℕ → Bool
corners r c =
    get_or
      (get_or
        ((true ∷ true ∷ []) ∷ (true ∷ false ∷ []) ∷ (true ∷ false ∷ []) ∷ (false ∷ true ∷ []) ∷ [])
        r [])
      c false

abbrev loaded : Dipoles Bool
loaded = load_from_matrix no_dipoles 4 corners

abbrev dipoles_of_two : Dipoles Bool
dipoles_of_two = new_dipoles two_dipoles

set_new_coordinates-new_dipoles_example :
    SameSystem (set_new_coordinates loaded two_dipoles) dipoles_of_two
set_new_coordinates-new_dipoles_example =
    set_new_coordinates-new_dipoles loaded 4 (λ i. get_or (false ∷ true ∷ true ∷ true ∷ []) i false)
      (load_from_matrix-IsInitialised no_dipoles 4 corners)

load_from_matrix-get_matrixx_example :
    let loaded = load_from_matrix no_dipoles (4 * dipoles_of_two.n) (get_matrixx dipoles_of_two) in
    (loaded.n ≡ dipoles_of_two.n)
    × (loaded.m_1 1 3 ≡ dipoles_of_two.m_1 1 3)
    × (loaded.m_2 1 3 ≡ dipoles_of_two.m_2 1 3)
unfolding new_dipoles set_matrixes init_arrays
load_from_matrix-get_matrixx_example =
    load_from_matrix-get_matrixx dipoles_of_two no_dipoles 1 3 (omega arith) (omega arith)

new_dipoles_symmetric_example :
    (dipoles_of_two.m_1 0 3 ≡ dipoles_of_two.m_1 3 0)
    × (dipoles_of_two.m_2 0 3 ≡ dipoles_of_two.m_2 3 0)
unfolding new_dipoles set_matrixes init_arrays
new_dipoles_symmetric_example =
    new_dipoles_symmetric binary-IsExact two_dipoles 0 3 (omega arith) (omega arith)

two_cases : (P : ℕ → Type 0) → P 0 → P 1 → (k : ℕ) → k < 2 → P k
two_cases P p q zero h = p
two_cases P p q (suc zero) h = q
two_cases P p q (suc (suc k)) h = absurd (omega arith)

loaded-Commutes : Commutes (2 * loaded.n) loaded.m_1 loaded.m_2
unfolding load_from_matrix init_arrays sum
loaded-Commutes i j hi hj =
    two_cases (λ i. product 2 loaded.m_1 loaded.m_2 i j ≡ product 2 loaded.m_2 loaded.m_1 i j)
      (two_cases (λ j. product 2 loaded.m_1 loaded.m_2 0 j ≡ product 2 loaded.m_2 loaded.m_1 0 j)
        refl refl j hj)
      (two_cases (λ j. product 2 loaded.m_1 loaded.m_2 1 j ≡ product 2 loaded.m_2 loaded.m_1 1 j)
        refl refl j hj)
      i hi

loaded-IsRegular : IsRegular (2 * loaded.n) (squares cramer loaded)
unfolding load_from_matrix init_arrays sum
loaded-IsRegular v w h k hk =
    two_cases (λ k. v k ≡ w k) (ground (arith, h 0 (omega arith), h 1 (omega arith)))
      (ground (arith, h 0 (omega arith), h 1 (omega arith))) k hk

loaded-Solves : Solves cramer (2 * loaded.n) (squares cramer loaded)
unfolding load_from_matrix init_arrays sum
loaded-Solves v k hk =
    two_cases
      (λ k. applied 2 (squares cramer loaded) (cramer.lu_solve 2 (squares cramer loaded) v) k ≡ v k)
      (ground arith) (ground arith) k hk

solve_satisfies_example :
    applied (4 * loaded.n) (get_matrixx loaded) (solve cramer loaded) 3 ≡ loaded.right_part 3
unfolding load_from_matrix init_arrays
solve_satisfies_example =
    solve_satisfies binary-IsExact cramer cramer-IsAlgebra loaded loaded-Commutes loaded-IsRegular
      loaded-Solves 3 (omega arith)

-- The two blocks of the system need to commute: with (1 1; 1 0) and (1 1; 0 1), of which the sum of
-- the squares is regular, the first equation does not hold for what `Solve` gives.
abbrev mixed_corners : ℕ → ℕ → Bool
mixed_corners r c =
    get_or
      (get_or
        ((true ∷ true ∷ []) ∷ (true ∷ false ∷ []) ∷ (true ∷ true ∷ []) ∷ (false ∷ true ∷ []) ∷ []) r
        [])
      c false

abbrev mixed : Dipoles Bool
mixed = load_from_matrix no_dipoles 4 mixed_corners

solve_of_mixed : applied 4 (get_matrixx mixed) (solve cramer mixed) 0 ≢ mixed.right_part 0
unfolding load_from_matrix init_arrays sum get_matrixx solve initial_right_part
solve_of_mixed h = cc

-- Coordinates in two containers are taken for one dipole when they are set again.
nested_coordinates : (set_new_coordinates no_dipoles (nested 3 (λ i. true) (λ i. false))).n ≡ 1
unfolding set_new_coordinates set_matrixes init_arrays
nested_coordinates = refl
