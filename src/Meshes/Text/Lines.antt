-- ===== src/Meshes/Text/Lines.antt =====
-- The lines of the table of a mesh, and how they are read.
use distributed_math_arh.Prelude.{
  ℕ, zero, suc, ◌+◌, ◌*◌, ◌-◌, ◌<◌, ◌≤◌, ◌≡◌, refl, sym, ap, ◌∙◌, arith, true, List, [], ◌∷◌, ◌++◌,
  map, get_or, none,
}
use distributed_math_arh.Outcome.{Outcome, ok, throw, undefined, ◌>>=◌}
use distributed_math_arh.Numbers.{Numbers}
use distributed_math_arh.Meshes.{MeshCreator, construct_meshes, my_linspace, my_mesh_grid}
use distributed_math_arh.Meshes.Text.{
  at, entries, dec_lines, corner, skip_word, skip_numbers, read_grid, read_dims,
}
use distributed_math_arh.Printing.{Input, good_input, is_space, Format, shown}
use distributed_math_arh.Printing.Coordinates.{
  IsReadable, IsReadableAs, append-map, slice, slice-append,
}
use distributed_math_arh.Printing.Containers.{columns_from, read_row}
use distributed_math_arh.Printing.Containers.Matrices.{no_more, read_row_step}

module _ {F : Type 0} ⦃num : Numbers F⦄ (count : Format ℕ) (number : Format F)
    (counts : (n : ℕ) → IsReadable count n) (near : F → F)
    (numbers : (x : F) → IsReadableAs number x (near x)) where
  -- f j, f (j + 1), ...: n of them
  abbrev pub run : (ℕ → F) → ℕ → ℕ → List F
  run f j zero = []
  run f j (suc n) = near (f j) ∷ run f (suc j) n

  pub next :
      (x : F) (blank c : ℕ) (rest : List ℕ)
      → is_space blank ≡ true
      → is_space c ≡ true
      → number.read (good_input (blank ∷ shown count number x c rest))
        ≡ (near x, good_input (c ∷ rest))
  next x blank c rest h k = numbers x (blank ∷ []) rest c (h, tt) k

  pub dims_read :
      (a b : ℕ) (later : List ℕ)
      → read_dims count number none
          (good_input (count.show a ++ b'\t' ∷ (count.show b ++ b'\n' ∷ later)))
        ≡ ok ((a, b), good_input (b'\n' ∷ later))
  dims_read a b later =
      rw
        (
          counts a [] (count.show b ++ b'\n' ∷ later) b'\t' tt refl,
          counts b (b'\t' ∷ []) later b'\n' (refl, tt) refl,
        )
        refl

  entries_read :
      (f : ℕ → F) (left j blank : ℕ) (later : List ℕ)
      → is_space blank ≡ true
      → read_row number (suc left) (good_input (blank ∷ entries count number f j left later))
        ≡ (run f j (suc left), good_input (b'\n' ∷ later))
  unfolding entries
  entries_read f zero j blank later h =
      read_row_step number 0 _ (near (f j)) (good_input (b'\n' ∷ later)) []
        (good_input (b'\n' ∷ later)) (next (f j) blank b'\n' later h refl) (no_more number _)
  entries_read f (suc left) j blank later h =
      let after = entries count number f (suc j) left later in
      read_row_step number (suc left) _ (near (f j)) (good_input (b'\t' ∷ after))
        (run f (suc j) (suc left)) (good_input (b'\n' ∷ later))
        (next (f j) blank b'\t' after h refl) (entries_read f left (suc j) b'\t' later refl)

  -- The entries but the last are skipped.
  pub entries_skipped :
      (f : ℕ → F) (left j blank : ℕ) (later : List ℕ)
      → is_space blank ≡ true
      → number.read (
          skip_numbers count number left (good_input (blank ∷ entries count number f j left later)))
        ≡ (near (f (j + left)), good_input (b'\n' ∷ later))
  unfolding entries skip_numbers
  entries_skipped f zero j blank later h =
      let e : j + 0 ≡ j = omega arith in
      next (f j) blank b'\n' later h refl
      ∙ ap (λ k. (near (f k), good_input (b'\n' ∷ later))) (sym e)
  entries_skipped f (suc left) j blank later h =
      let after = entries count number f (suc j) left later in
      let e : suc j + left ≡ j + suc left = omega arith in
      ap (λ (r : F × Input). number.read (skip_numbers count number left r.1))
        (next (f j) blank b'\t' after h refl)
      ∙ entries_skipped f left (suc j) b'\t' later refl
      ∙ ap (λ k. (near (f k), good_input (b'\n' ∷ later))) e

  module _ (mesh : MeshCreator F) where
    abbrev pub printed_row : ℕ → List F
    printed_row i =
        run (λ j. at count number mesh.data_2 (j * mesh.dimensions.1 + i)) 0
          (suc (mesh.dimensions.0 - 1))

    abbrev pub printed_rows : ℕ → ℕ → List (List F)
    printed_rows zero i = []
    printed_rows (suc left) i = printed_row i ∷ printed_rows left (suc i)

    pub grid_read :
        (left i : ℕ)
        → read_grid count number
            (suc (mesh.dimensions.0 - 1))
            left
            (good_input (b'\n' ∷ dec_lines count number mesh left i))
          ≡ (map near (slice mesh.data_0 left i), printed_rows left i)
    unfolding read_grid dec_lines
    grid_read zero i = refl
    grid_read (suc left) i =
        let later = dec_lines count number mesh left (suc i) in
        let f : ℕ → F = λ j. at count number mesh.data_2 (j * mesh.dimensions.1 + i) in
        rw
          (
            next (at count number mesh.data_0 i) b'\n' b'\t'
                (entries count number f 0 (mesh.dimensions.0 - 1) later) refl refl,
            entries_read f (mesh.dimensions.0 - 1) 0 b'\t' later refl,
            grid_read left (suc i),
          )
          refl

  pub corner_skipped :
      (later : List ℕ)
      → skip_word (good_input (corner ++ later)) ≡ good_input (b'\t' ∷ b'\t' ∷ later)
  unfolding skip_word
  corner_skipped later = ground arith

  -- The angle that stands at index k of those from i on.
  pub get_or-slice :
      (col : List F) (m k i : ℕ)
      → k < m
      → at count number (map near (slice col m i)) k ≡ near (at count number col (i + k))
  get_or-slice col zero k i h = absurd (omega (arith, h))
  get_or-slice col (suc m) zero i h = let e : i + 0 ≡ i = omega arith in rw e refl
  get_or-slice col (suc m) (suc k) i h =
      let e : suc i + k ≡ i + suc k = omega arith in
      get_or-slice col m k (suc i) (omega arith) ∙ ap (λ z. near (at count number col z)) e

  get_or-run : (f : ℕ → F) (n k j : ℕ) → k < n → at count number (run f j n) k ≡ near (f (j + k))
  get_or-run f zero k j h = absurd (omega (arith, h))
  get_or-run f (suc n) zero j h = let e : j + 0 ≡ j = omega arith in rw e refl
  get_or-run f (suc n) (suc k) j h =
      let e : suc j + k ≡ j + suc k = omega arith in
      get_or-run f n k (suc j) (omega arith) ∙ ap (λ z. near (f z)) e

  module _ (mesh : MeshCreator F) where
    column_of_rows :
        (left i j : ℕ)
        → j < suc (mesh.dimensions.0 - 1)
        → map (λ row. get_or row j (num.lit 0)) (printed_rows mesh left i)
          ≡ map near (slice mesh.data_2 left (j * mesh.dimensions.1 + i))
    column_of_rows zero i j h = refl
    column_of_rows (suc left) i j h =
        let f : ℕ → F = λ k. at count number mesh.data_2 (k * mesh.dimensions.1 + i) in
        let z : 0 + j ≡ j = omega arith in
        let e : j * mesh.dimensions.1 + suc i ≡ suc (j * mesh.dimensions.1 + i) = omega arith in
        rw (get_or-run f (suc (mesh.dimensions.0 - 1)) j 0 h, column_of_rows left (suc i) j h, e, z)
          refl

    pub columns_printed :
        (left j : ℕ)
        → j + left ≤ suc (mesh.dimensions.0 - 1)
        → columns_from (printed_rows mesh mesh.dimensions.1 0) j left
          ≡ map near (slice mesh.data_2 (left * mesh.dimensions.1) (j * mesh.dimensions.1))
    unfolding columns_from
    columns_printed zero j h = let e : 0 * mesh.dimensions.1 ≡ 0 = omega arith in rw e refl
    columns_printed (suc left) j h =
        let e_0 : j * mesh.dimensions.1 + 0 ≡ j * mesh.dimensions.1 = omega arith in
        let e_1 : suc j * mesh.dimensions.1 ≡ j * mesh.dimensions.1 + mesh.dimensions.1 =
          grind arith in
        let e_2 : suc left * mesh.dimensions.1 ≡ mesh.dimensions.1 + left * mesh.dimensions.1 =
          grind arith in
        rw
          (
            column_of_rows mesh.dimensions.1 0 j (omega arith),
            columns_printed left (suc j) (omega arith),
            e_0,
            e_1,
            e_2,
          )
          (append-map near (slice mesh.data_2 mesh.dimensions.1 (j * mesh.dimensions.1)) (
              slice mesh.data_2 (left * mesh.dimensions.1)
                (j * mesh.dimensions.1 + mesh.dimensions.1))
            ∙ ap (map near) (
                slice-append mesh.data_2 mesh.dimensions.1 (left * mesh.dimensions.1)
                  (j * mesh.dimensions.1)))

  pub angles_read :
      (f : ℕ → F) (k : ℕ) (later : List ℕ)
      → number.read (good_input (b'\t' ∷ b'\t' ∷ entries count number f 0 (suc k) later))
        ≡ (near (f 0), good_input (b'\t' ∷ entries count number f 1 k later))
  unfolding entries
  angles_read f k later =
      numbers (f 0) (b'\t' ∷ b'\t' ∷ []) (entries count number f 1 k later) b'\t' (refl, (refl, tt))
        refl

  abbrev built :
      MeshCreator F
      → ℕ × ℕ
      → F × F × F × F
      → Outcome (List F)
      → Outcome (List F)
      → Outcome (MeshCreator F)
  built mesh dims lims p t = do
    phi ← p
    theta ← t
    let grid = my_mesh_grid phi theta
    ok (record mesh { dimensions = dims; limits = lims; data_0 = grid.0; data_1 = grid.1 })

  built_twice :
      (mesh other : MeshCreator F) (dims : ℕ × ℕ) (lims : F × F × F × F) (p t : Outcome (List F))
      → (built other dims lims p t >>= λ m. built (record m { data_2 = mesh.data_2 }) dims lims p t)
        ≡ built mesh dims lims p t
  built_twice mesh other dims lims undefined t = refl
  built_twice mesh other dims lims (throw x) t = refl
  built_twice mesh other dims lims (ok phi) undefined = refl
  built_twice mesh other dims lims (ok phi) (throw x) = refl
  built_twice mesh other dims lims (ok phi) (ok theta) = refl

  -- The second construction makes the same grid.
  pub constructed_twice :
      (mesh other : MeshCreator F) (dims : ℕ × ℕ) (lims : F × F × F × F)
      → (construct_meshes other dims lims >>= λ m.
          construct_meshes (record m { data_2 = mesh.data_2 }) dims lims)
        ≡ construct_meshes mesh dims lims
  unfolding construct_meshes
  constructed_twice mesh other dims lims =
      built_twice mesh other dims lims (my_linspace true lims.2 lims.3 dims.1)
        (my_linspace true lims.0 lims.1 dims.0)
