-- ===== src/Dipoles/Symmetry.antt =====
-- Symmetries of the system of equations.
use distributed_math_arh.Prelude.{
  ℕ, zero, suc, ◌*◌, ◌/◌, ◌%◌, ◌<◌, ◌≡◌, refl, sym, ap, ◌∙◌, arith, nat_beq,
}
use distributed_math_arh.Numbers.{Numbers, IsExact, ◌⊗◌, ◌⊘◌}
use distributed_math_arh.Numbers.Ring.{sub-mul-sub}
use distributed_math_arh.Dipoles.{
  Coordinates, get_element, difference, Block, entry, get_distance, two_d_vec_difference,
  get_matrices, mac_block, mbc_block, write_blocks, set_matrixes, new_dipoles, init_arrays,
  number_of_dipoles, a_coefficient,
}

nat_beq_comm : (i m : ℕ) → nat_beq i m ≡ nat_beq m i
nat_beq_comm i m = ground arith

entry_swap : {F : Type 0} (b : Block F) (r c : ℕ) → b.a01 ≡ b.a10 → entry b r c ≡ entry b c r
entry_swap b zero zero h = refl
entry_swap b zero (suc c) h = h
entry_swap b (suc r) zero h = sym h
entry_swap b (suc r) (suc c) h = refl

module _ {F : Type 0} ⦃num : Numbers F⦄ (exact : IsExact num) where
  -- The squares of a distance, and the products that the blocks are made of.
  swap_squares :
      (xi : Coordinates F) (n d e i m : ℕ)
      → difference xi n d i m ⊗ difference xi n e i m
        ≡ difference xi n d m i ⊗ difference xi n e m i
  swap_squares xi n d e i m =
      sub-mul-sub exact (get_element xi d i n) (get_element xi d m n) (get_element xi e i n)
        (get_element xi e m n)

  get_distance_comm :
      (xi : Coordinates F) (n i m : ℕ) → get_distance xi n i m ≡ get_distance xi n m i
  unfolding get_distance
  get_distance_comm xi n i m =
      ap num.sqrt (rw (swap_squares xi n 0 0 i m, swap_squares xi n 1 1 i m))

  thrice : (a b c d : F) → a ⊗ b ≡ c ⊗ d → num.lit 3 ⊗ a ⊗ b ≡ num.lit 3 ⊗ c ⊗ d
  thrice a b c d h =
      exact.mul_assoc (num.lit 3) a b
      ∙ ap (λ z. num.lit 3 ⊗ z) h
      ∙ sym (exact.mul_assoc (num.lit 3) c d)

  get_matrices_swap :
      (xi : Coordinates F) (n i m : ℕ) (r : F)
      → get_matrices (two_d_vec_difference xi n i m) r
        ≡ get_matrices (two_d_vec_difference xi n m i) r
  unfolding get_matrices two_d_vec_difference
  get_matrices_swap xi n i m r =
      let x =
        thrice (difference xi n 0 i m) (difference xi n 0 i m) (difference xi n 0 m i)
          (difference xi n 0 m i) (swap_squares xi n 0 0 i m) in
      let y =
        thrice (difference xi n 1 i m) (difference xi n 1 i m) (difference xi n 1 m i)
          (difference xi n 1 m i) (swap_squares xi n 1 1 i m) in
      let z =
        thrice (difference xi n 0 i m) (difference xi n 1 i m) (difference xi n 0 m i)
          (difference xi n 1 m i) (swap_squares xi n 0 1 i m) in
      rw (x, y, z)

  mac_block_comm :
      (an : F) (xi : Coordinates F) (n i m : ℕ) → mac_block an xi n i m ≡ mac_block an xi n m i
  unfolding mac_block
  mac_block_comm an xi n i m = rw (
    get_matrices_swap xi n m i (get_distance xi n i m),
    get_distance_comm xi n i m,
    nat_beq_comm i m,
  )

  mbc_block_comm :
      (an : F) (xi : Coordinates F) (n i m : ℕ) → mbc_block an xi n i m ≡ mbc_block an xi n m i
  unfolding mbc_block
  mbc_block_comm an xi n i m = rw (
    get_matrices_swap xi n m i (get_distance xi n i m),
    get_distance_comm xi n i m,
    nat_beq_comm i m,
  )

  mac_block_mixed :
      (an : F) (xi : Coordinates F) (n i m : ℕ)
      → (mac_block an xi n i m).a01 ≡ (mac_block an xi n i m).a10
  unfolding mac_block get_matrices
  mac_block_mixed an xi n i m = ground arith

  mbc_block_mixed :
      (an : F) (xi : Coordinates F) (n i m : ℕ)
      → (mbc_block an xi n i m).a01 ≡ (mbc_block an xi n i m).a10
  unfolding mbc_block get_matrices
  mbc_block_mixed an xi n i m = ground arith

  -- Blocks that do not see the order of the two dipoles make a symmetric matrix.
  write_blocks_symmetric :
      (n : ℕ) (blocks : ℕ → ℕ → Block F) (old : ℕ → ℕ → F)
      → ((i m : ℕ) → blocks i m ≡ blocks m i)
      → ((i m : ℕ) → (blocks i m).a01 ≡ (blocks i m).a10)
      → (r c : ℕ) → r < 2 * n
      → c < 2 * n
      → write_blocks n blocks old r c ≡ write_blocks n blocks old c r
  unfolding write_blocks
  write_blocks_symmetric n blocks old comm mixed r c hr hc =
      let swap =
        ap (λ b. entry b (r % 2) (c % 2)) (comm (r / 2) (c / 2))
        ∙ entry_swap (blocks (c / 2) (r / 2)) (r % 2) (c % 2) (mixed (c / 2) (r / 2)) in
      ground (arith, swap)

  -- Over exact numbers both matrices of the object that is made of coordinates are symmetric.
  pub new_dipoles_symmetric :
      (xi : Coordinates F) (r c : ℕ)
      → r < 2 * (new_dipoles xi).n
      → c < 2 * (new_dipoles xi).n
      → ((new_dipoles xi).m_1 r c ≡ (new_dipoles xi).m_1 c r)
        × ((new_dipoles xi).m_2 r c ≡ (new_dipoles xi).m_2 c r)
  unfolding new_dipoles set_matrixes init_arrays
  new_dipoles_symmetric xi r c hr hc =
      let n = number_of_dipoles xi in
      let an = a_coefficient ⊘ num.lit n in
      (
        write_blocks_symmetric n (mac_block an xi n) (λ r c. num.lit 0) (mac_block_comm an xi n)
            (mac_block_mixed an xi n) r c hr hc,
        write_blocks_symmetric n (mbc_block an xi n) (λ r c. num.lit 0) (mbc_block_comm an xi n)
            (mbc_block_mixed an xi n) r c hr hc,
      )
