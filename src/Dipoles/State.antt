-- ===== src/Dipoles/State.antt =====
-- The state of a `Dipoles` object: what its operations keep and how they agree with each other.
use mathlib.Core.Path.{ap₂}
use distributed_math_arh.Prelude.{
  ℕ, ◌+◌, ◌*◌, ◌/◌, ◌-◌, ◌<◌, ◌≡◌, refl, ap, ◌∙◌, arith, nat_beq, Bool-cases, inl, inr,
}
use distributed_math_arh.Numbers.{Numbers, ◌⊘◌}
use distributed_math_arh.Dipoles.{
  Coordinates, flat, Block, Dipoles, a_coefficient, initial_right_part, init_arrays, set_matrixes,
  write_blocks, mac_block, mbc_block, new_dipoles, set_new_coordinates, load_from_matrix,
  get_matrixx,
}

module _ {F : Type 0} ⦃num : Numbers F⦄ where
  -- The arrays have the sizes and the right part of the object's number of dipoles.
  pub record IsInitialised (d : Dipoles F) : Type 0 where
    pub sized : d.right_size ≡ 4 * d.n
    pub coefficient : d.an ≡ a_coefficient ⊘ num.lit d.n
    pub right : d.right_part ≡ initial_right_part d.n d.an

  -- The same equations: numbers, right part and the entries inside the matrices.
  pub record SameSystem (a b : Dipoles F) : Type 0 where
    pub same_n : a.n ≡ b.n
    pub same_an : a.an ≡ b.an
    pub same_size : a.right_size ≡ b.right_size
    pub same_right : a.right_part ≡ b.right_part
    pub same_m_1 : (r c : ℕ) → r < 2 * a.n → c < 2 * a.n → a.m_1 r c ≡ b.m_1 r c
    pub same_m_2 : (r c : ℕ) → r < 2 * a.n → c < 2 * a.n → a.m_2 r c ≡ b.m_2 r c

  pub new_dipoles-IsInitialised : (xi : Coordinates F) → IsInitialised (new_dipoles xi)
  unfolding new_dipoles set_matrixes init_arrays
  new_dipoles-IsInitialised xi = record { sized = refl; coefficient = refl; right = refl }

  pub load_from_matrix-IsInitialised :
      (d : Dipoles F) (rows : ℕ) (matrix : ℕ → ℕ → F)
      → IsInitialised (load_from_matrix d rows matrix)
  unfolding load_from_matrix init_arrays
  load_from_matrix-IsInitialised d rows matrix = record {
    sized = refl;
    coefficient = refl;
    right = refl;
  }

  pub set_new_coordinates-IsInitialised :
      (d : Dipoles F) (xi : Coordinates F)
      → IsInitialised d
      → IsInitialised (set_new_coordinates d xi)
  unfolding set_new_coordinates set_matrixes init_arrays
  set_new_coordinates-IsInitialised d xi h = ground arith

  -- Entries that are written do not depend on what stood there.
  write_blocks_old :
      (n : ℕ) (blocks : ℕ → ℕ → Block F) (old new : ℕ → ℕ → F) (r c : ℕ)
      → r < 2 * n
      → c < 2 * n
      → write_blocks n blocks old r c ≡ write_blocks n blocks new r c
  unfolding write_blocks
  write_blocks_old n blocks old new r c h k = ground arith

  -- With the same number and the same coefficient, an object and the constructor write the same.
  module _ (d : Dipoles F) (k : ℕ) (at : ℕ → F) where
    written :
        d.n ≡ k / 2
        → d.an ≡ a_coefficient ⊘ num.lit (k / 2)
        → d.right_size ≡ 4 * (k / 2)
        → d.right_part ≡ initial_right_part (k / 2) (a_coefficient ⊘ num.lit (k / 2))
        → SameSystem (set_matrixes d (flat k at)) (new_dipoles (flat k at))
    unfolding set_matrixes new_dipoles init_arrays
    written en ea es er = record {
      same_n = en;
      same_an = ea;
      same_size = es;
      same_right = er;
      same_m_1 = λ r c hr hc.
          write_blocks_old d.n (mac_block d.an (flat k at) d.n) d.m_1 (λ r c. num.lit 0) r c hr hc
          ∙ ap₂ (λ n an. write_blocks n (mac_block an (flat k at) n) (λ r c. num.lit 0) r c) en ea;
      same_m_2 = λ r c hr hc.
          write_blocks_old d.n (mbc_block d.an (flat k at) d.n) d.m_2 (λ r c. num.lit 0) r c hr hc
          ∙ ap₂ (λ n an. write_blocks n (mbc_block an (flat k at) n) (λ r c. num.lit 0) r c) en ea;
    }

  -- New coordinates in one container leave an initialised object with the system of equations that
  -- the constructor makes of them, whatever it held before and whether the arrays are made again or not.
  pub set_new_coordinates-new_dipoles :
      (d : Dipoles F) (k : ℕ) (at : ℕ → F)
      → IsInitialised d
      → SameSystem (set_new_coordinates d (flat k at)) (new_dipoles (flat k at))
  unfolding set_new_coordinates init_arrays
  set_new_coordinates-new_dipoles d k at h = elim (Bool-cases (nat_beq d.right_size (k * 2))) [
    | inl same ↦
        let en : d.n ≡ k / 2 = ground arith in
        let ea = h.coefficient ∙ ap (λ n. a_coefficient ⊘ num.lit n) en in
        rw same (
          written d k at en ea (h.sized ∙ ap (λ n. 4 * n) en)
            (h.right ∙ ap₂ initial_right_part en ea))
    | inr other ↦ rw other (written (init_arrays (record d { n = k / 2 })) k at refl refl refl refl)
  ]

  -- A system that is loaded from the matrix of an object, into whatever object, has the number of dipoles
  -- and, within their size, both blocks of that object.
  pub load_from_matrix-get_matrixx :
      (d e : Dipoles F) (r c : ℕ)
      → r < 2 * d.n
      → c < 2 * d.n
      → let loaded = load_from_matrix e (4 * d.n) (get_matrixx d) in
        (loaded.n ≡ d.n) × (loaded.m_1 r c ≡ d.m_1 r c) × (loaded.m_2 r c ≡ d.m_2 r c)
  unfolding load_from_matrix init_arrays get_matrixx
  load_from_matrix-get_matrixx d e r c hr hc =
      let count : 4 * d.n / 4 ≡ d.n = omega arith in
      let back : 2 * d.n + r - 2 * d.n ≡ r = omega arith in
      rw count (refl, ground arith, rw back (ground arith))
