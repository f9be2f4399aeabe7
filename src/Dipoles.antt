-- ===== src/Dipoles.antt =====
-- computationalLib/include/math_core/Dipoles.h and lib/math_core/Dipoles.cpp: the system of equations
-- of a set of dipoles, and its solution. Numbers and the matrix algebra of Eigen are interfaces.
-- A matrix of Eigen is its entries; what lies outside of its size is never read. The sizes are below
-- 2^31, so that `int` holds them.
pub mod Fields
pub mod Symmetry
pub mod State
pub mod Solution
pub mod Examples
use distributed_math_arh.Prelude.{
  ℕ, zero, suc, ◌+◌, ◌*◌, ◌/◌, ◌%◌, ◌-◌, Bool, true, false, not, ◌&&◌, Option, none, some, ltb,
  nat_beq, if◌then◌else◌, ◌^◌,
}
use distributed_math_arh.Numbers.{Numbers, ◌⊕◌, ◌⊖◌, ◌⊗◌, ◌⊘◌, pow}

-- Coordinates in one container, first all x and then all y, or in two containers.
pub data Coordinates (F : Type 0) : Type 0 where
  flat : ℕ → (ℕ → F) → Coordinates F
  nested : ℕ → (ℕ → F) → (ℕ → F) → Coordinates F

module _ {F : Type 0} where
  -- xi.size()
  abbrev pub size : Coordinates F → ℕ
  size (flat n at) = n
  size (nested n xs ys) = 2

  -- GetElement(xi, i1, i2, n)
  abbrev pub get_element : Coordinates F → ℕ → ℕ → ℕ → F
  get_element (flat k at) i1 i2 n = at (i1 * n + i2)
  get_element (nested k xs ys) zero i2 n = xs i2
  get_element (nested k xs ys) (suc i1) i2 n = ys i2

-- A matrix of two rows and two columns, by rows.
pub record Block (F : Type 0) : Type 0 where
  pub a00 : F
  pub a01 : F
  pub a10 : F
  pub a11 : F

abbrev pub entry : {F : Type 0} → Block F → ℕ → ℕ → F
entry b zero zero = b.a00
entry b zero (suc c) = b.a01
entry b (suc r) zero = b.a10
entry b (suc r) (suc c) = b.a11

-- `params`
module _ {F : Type 0} ⦃num : Numbers F⦄ where
  abbrev pub speed_of_light : F
  speed_of_light = num.lit 3 ⊗ num.lit (10 ^ 8)

  abbrev pub yo : F
  yo = num.lit (10 ^ 7)

  abbrev pub omega_0 : F
  omega_0 = num.lit (10 ^ 15)

  abbrev pub a_coefficient : F
  a_coefficient = num.lit 1

  abbrev pub eps : F
  eps = num.lit 1

  -- Eigen's operations on small matrices, entry by entry
  abbrev pub scaled : F → Block F → Block F
  scaled k b = record { a00 = k ⊗ b.a00; a01 = k ⊗ b.a01; a10 = k ⊗ b.a10; a11 = k ⊗ b.a11 }

  abbrev pub times_number : Block F → F → Block F
  times_number b k = record { a00 = b.a00 ⊗ k; a01 = b.a01 ⊗ k; a10 = b.a10 ⊗ k; a11 = b.a11 ⊗ k }

  abbrev pub plus_block : Block F → Block F → Block F
  plus_block a b = record {
    a00 = a.a00 ⊕ b.a00;
    a01 = a.a01 ⊕ b.a01;
    a10 = a.a10 ⊕ b.a10;
    a11 = a.a11 ⊕ b.a11;
  }

  abbrev pub minus_block : Block F → Block F → Block F
  minus_block a b = record {
    a00 = a.a00 ⊖ b.a00;
    a01 = a.a01 ⊖ b.a01;
    a10 = a.a10 ⊖ b.a10;
    a11 = a.a11 ⊖ b.a11;
  }

  abbrev pub negative_block : Block F → Block F
  negative_block b = record {
    a00 = num.negative b.a00;
    a01 = num.negative b.a01;
    a10 = num.negative b.a10;
    a11 = num.negative b.a11;
  }

  abbrev pub identity : Block F
  identity = record { a00 = num.lit 1; a01 = num.lit 0; a10 = num.lit 0; a11 = num.lit 1 }

-- The object. `right_part` is f_, of `right_size` entries.
pub record Dipoles (F : Type 0) : Type 0 where
  pub n : ℕ
  pub an : F
  pub m_1 : ℕ → ℕ → F
  pub m_2 : ℕ → ℕ → F
  pub right_size : ℕ
  pub right_part : ℕ → F
  pub ifunction : Option (F → F → F → F)
  pub i_2_function : Option (F → F → F)

-- What Eigen does with square matrices of a size: the product of two, the product with a vector, and
-- the solution of a system by `lu()` and `solve`.
pub record Eigen (F : Type 0) : Type 0 where
  pub multiply : ℕ → (ℕ → ℕ → F) → (ℕ → ℕ → F) → ℕ → ℕ → F
  pub apply : ℕ → (ℕ → ℕ → F) → (ℕ → F) → ℕ → F
  pub lu_solve : ℕ → (ℕ → ℕ → F) → (ℕ → F) → ℕ → F

module _ {F : Type 0} ⦃num : Numbers F⦄ where
  -- The difference of two dipoles in one coordinate.
  abbrev pub difference : Coordinates F → ℕ → ℕ → ℕ → ℕ → F
  difference xi n d i1 i2 = get_element xi d i1 n ⊖ get_element xi d i2 n

  unfoldable pub get_distance : Coordinates F → ℕ → ℕ → ℕ → F
  get_distance xi n i1 i2 =
      let d1 = difference xi n 0 i1 i2 in
      let d2 = difference xi n 1 i1 i2 in num.sqrt (d1 ⊗ d1 ⊕ d2 ⊗ d2)

  unfoldable pub two_d_vec_difference : Coordinates F → ℕ → ℕ → ℕ → F × F
  two_d_vec_difference xi n i1 i2 = (difference xi n 0 i1 i2, difference xi n 1 i1 i2)

  unfoldable pub get_matrices : F × F → F → Block F × Block F
  get_matrices rim r =
      let mixed = num.lit 3 ⊗ rim.0 ⊗ rim.1 ⊘ pow r 5 in
      let both = omega_0 ⊘ (speed_of_light ⊗ pow r 2) in
      (
        record {
          a00 = (num.lit 3 ⊗ rim.0 ⊗ rim.0 ⊘ pow r 5) ⊖ (num.lit 1 ⊘ pow r 3);
          a01 = mixed;
          a10 = mixed;
          a11 = (num.lit 3 ⊗ rim.1 ⊗ rim.1 ⊘ pow r 5) ⊖ (num.lit 1 ⊘ pow r 3);
        },
        record { a00 = both; a01 = num.lit 0; a10 = num.lit 0; a11 = both },
      )

  -- The blocks for dipoles i and m that are not the same.
  abbrev mac_pair : F → F × F → F → Block F
  mac_pair an rim r =
      let k = get_matrices rim r in
      let arg = omega_0 ⊗ r ⊘ speed_of_light in
      scaled (num.negative an)
        (minus_block (times_number k.0 (num.cos arg)) (times_number k.1 (num.sin arg)))

  abbrev mbc_pair : F → F × F → F → Block F
  mbc_pair an rim r =
      let k = get_matrices rim r in
      let arg = omega_0 ⊗ r ⊘ speed_of_light in
      scaled (num.negative an)
        (plus_block (times_number k.1 (num.cos arg)) (times_number k.0 (num.sin arg)))

  unfoldable pub mac_block : F → Coordinates F → ℕ → ℕ → ℕ → Block F
  mac_block an xi n i m =
      if nat_beq i m
      then times_number identity (omega_0 ⊗ omega_0 ⊖ omega_0 ⊗ omega_0)
      else mac_pair an (two_d_vec_difference xi n m i) (get_distance xi n i m)

  unfoldable pub mbc_block : F → Coordinates F → ℕ → ℕ → ℕ → Block F
  mbc_block an xi n i m =
      if nat_beq i m
      then negative_block (times_number identity (yo ⊗ omega_0))
      else mbc_pair an (two_d_vec_difference xi n m i) (get_distance xi n i m)

  -- for i, m below n: matrix.block<2, 2>(2 * i, 2 * m) = blocks i m. Each entry is written once.
  unfoldable pub write_blocks : ℕ → (ℕ → ℕ → Block F) → (ℕ → ℕ → F) → ℕ → ℕ → F
  write_blocks n blocks old r c =
      if ltb r (2 * n) && ltb c (2 * n)
      then entry (blocks (r / 2) (c / 2)) (r % 2) (c % 2)
      else old r c

  unfoldable pub set_matrixes : Dipoles F → Coordinates F → Dipoles F
  set_matrixes d xi = record d {
    m_1 = write_blocks d.n (mac_block d.an xi d.n) d.m_1;
    m_2 = write_blocks d.n (mbc_block d.an xi d.n) d.m_2;
  }

  -- f_ of a size: its rows are written in pairs, in each half.
  unfoldable pub initial_right_part : ℕ → F → ℕ → F
  initial_right_part n an k =
      if ltb k (2 * n)
      then (if nat_beq (k % 2) 0 then an ⊗ eps else num.lit 0)
      else if nat_beq (k % 2) 0
      then num.lit 0
      else an ⊗ eps

  unfoldable pub init_arrays : Dipoles F → Dipoles F
  init_arrays d =
      let an = a_coefficient ⊘ num.lit d.n in
      record d { an = an; right_size = 4 * d.n; right_part = initial_right_part d.n an }

  -- The object of the default constructor, whose n_ and arrays hold nothing.
  abbrev pub no_dipoles : Dipoles F
  no_dipoles = record {
    n = 0;
    an = a_coefficient;
    m_1 = λ r c. num.lit 0;
    m_2 = λ r c. num.lit 0;
    right_size = 0;
    right_part = λ k. num.lit 0;
    ifunction = none;
    i_2_function = none;
  }

  abbrev pub number_of_dipoles : Coordinates F → ℕ
  number_of_dipoles (flat k at) = k / 2
  number_of_dipoles (nested k xs ys) = k

  -- Dipoles(xi)
  unfoldable pub new_dipoles : Coordinates F → Dipoles F
  new_dipoles xi = set_matrixes (init_arrays (record no_dipoles { n = number_of_dipoles xi })) xi

  unfoldable pub set_new_coordinates : Dipoles F → Coordinates F → Dipoles F
  set_new_coordinates d xi =
      if not (nat_beq d.right_size (size xi * 2))
      then set_matrixes (init_arrays (record d { n = size xi / 2 })) xi
      else set_matrixes d xi

  -- xi is a matrix of `rows` rows.
  unfoldable pub load_from_matrix : Dipoles F → ℕ → (ℕ → ℕ → F) → Dipoles F
  load_from_matrix d rows xi =
      let d' = init_arrays (record d { n = rows / 4 }) in
      record d' { m_1 = xi; m_2 = λ r c. xi (2 * d'.n + r) c }

  -- The four corners of the matrix of the system.
  unfoldable pub get_matrixx : Dipoles F → ℕ → ℕ → F
  get_matrixx d r c =
      if ltb r (2 * d.n)
      then (if ltb c (2 * d.n) then d.m_1 r c else num.negative (d.m_2 r (c - 2 * d.n)))
      else if ltb c (2 * d.n)
      then d.m_2 (r - 2 * d.n) c
      else d.m_1 (r - 2 * d.n) (c - 2 * d.n)

  -- The two halves of f_
  abbrev pub first_half : Dipoles F → ℕ → F
  first_half d k = d.right_part k

  abbrev pub second_half : Dipoles F → ℕ → F
  second_half d k = d.right_part (2 * d.n + k)

  module _ (eigen : Eigen F) where
    -- m_1_ * m_1_ + m_2_ * m_2_
    abbrev pub squares : Dipoles F → ℕ → ℕ → F
    squares d r c =
        eigen.multiply (2 * d.n) d.m_1 d.m_1 r c ⊕ eigen.multiply (2 * d.n) d.m_2 d.m_2 r c

    abbrev pub first_target : Dipoles F → ℕ → F
    first_target d k =
        eigen.apply (2 * d.n) d.m_1 (first_half d) k ⊕ eigen.apply (2 * d.n) d.m_2 (second_half d) k

    abbrev pub second_target : Dipoles F → ℕ → F
    second_target d k =
        eigen.apply (2 * d.n) d.m_1 (second_half d) k ⊖ eigen.apply (2 * d.n) d.m_2 (first_half d) k

    -- Solve, into an array of two vectors
    unfoldable pub solve_halves : Dipoles F → (ℕ → F) × (ℕ → F)
    solve_halves d = (
      eigen.lu_solve (2 * d.n) (squares d) (first_target d),
      eigen.lu_solve (2 * d.n) (squares d) (second_target d),
    )

    -- Solve, into one vector: of Eigen, a vector or a valarray
    unfoldable pub solve : Dipoles F → ℕ → F
    solve d k =
        if ltb k (2 * d.n)
        then eigen.lu_solve (2 * d.n) (squares d) (first_target d) k
        else eigen.lu_solve (2 * d.n) (squares d) (second_target d) (k - 2 * d.n)
