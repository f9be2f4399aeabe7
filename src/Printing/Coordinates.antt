-- ===== src/Printing/Coordinates.antt =====
-- Coordinates and solutions that are written for people are read back.
use distributed_math_arh.Prelude.{
  ℕ, zero, suc, ◌+◌, ◌*◌, ◌/◌, ◌%◌, ◌≡◌, refl, sym, ap, ◌∙◌, arith, true, false, List, [], ◌∷◌,
  ◌++◌, All, length, map, get_or, nat_beq, some,
}
use distributed_math_arh.Outcome.{ok}
use distributed_math_arh.Numbers.{Numbers}
use distributed_math_arh.Printing.{
  good_input, is_space, Format, codes, coordinate_lines, print_coordinates_2, read_coordinates,
  parse_coordinates, coefficient_line, solution_lines, print_solution_format_1, read_solution,
  parse_solution, get_line, line_of, hypotenuse, shown,
}

-- Between blanks and before a blank, what is written of the value `a` is read as the value `b`.
abbrev pub IsReadableAs : {A : Type 0} → Format A → A → A → Type 0
IsReadableAs format a b =
    (blanks rest : List ℕ) (c : ℕ)
    → All (λ z. is_space z ≡ true) blanks
    → is_space c ≡ true
    → format.read (good_input (blanks ++ (format.show a ++ c ∷ rest))) ≡ (b, good_input (c ∷ rest))

abbrev pub IsReadable : {A : Type 0} → Format A → A → Type 0
IsReadable format a = IsReadableAs format a a

-- A line without a line feed in it.
abbrev pub IsLine : List ℕ → Type 0
IsLine cs = All (λ c. nat_beq c b'\n' ≡ false) cs

line_of-append : (cs rest : List ℕ) → IsLine cs → (line_of (cs ++ b'\n' ∷ rest)).1 ≡ some rest
line_of-append [] rest h = refl
line_of-append (c ∷ cs) rest h = rw (h.0) (line_of-append cs rest h.1)

pub get_line-append :
    (cs rest : List ℕ) → IsLine cs → get_line (good_input (cs ++ b'\n' ∷ rest)) ≡ good_input rest
unfolding get_line
get_line-append cs rest h = rw (line_of-append cs rest h)

pub append-map :
    {A B : Type 0} (f : A → B) (xs ys : List A) → map f xs ++ map f ys ≡ map f (xs ++ ys)
append-map f [] ys = refl
append-map f (x ∷ xs) ys = ap (λ l. f x ∷ l) (append-map f xs ys)

module _ {F : Type 0} ⦃num : Numbers F⦄ where
  abbrev at : List F → ℕ → F
  at col i = get_or col i (num.lit 0)

  -- The elements from index i on.
  abbrev pub slice : List F → ℕ → ℕ → List F
  slice col zero i = []
  slice col (suc m) i = at col i ∷ slice col m (suc i)

  slice-cons : (x : F) (col : List F) (m i : ℕ) → slice (x ∷ col) m (suc i) ≡ slice col m i
  slice-cons x col zero i = refl
  slice-cons x col (suc m) i = ap (λ l. at col i ∷ l) (slice-cons x col m (suc i))

  pub slice_whole : (col : List F) → slice col (length col) 0 ≡ col
  slice_whole [] = refl
  slice_whole (x ∷ col) = ap (λ l. x ∷ l) (slice-cons x col (length col) 0 ∙ slice_whole col)

  pub slice-append :
      (col : List F) (m k i : ℕ) → slice col m i ++ slice col k (i + m) ≡ slice col (m + k) i
  slice-append col zero k i =
      let e : i + 0 ≡ i = omega arith in let e' : 0 + k ≡ k = omega arith in rw (e, e')
  slice-append col (suc m) k i =
      let e : i + suc m ≡ suc i + m = omega arith in
      let e' : suc m + k ≡ suc (m + k) = omega arith in
      rw (e, e') (ap (λ l. at col i ∷ l) (slice-append col m k (suc i)))

  halves : (col : List F) (n : ℕ) → length col ≡ n + n → slice col n 0 ++ slice col n (0 + n) ≡ col
  halves col n h = slice-append col n n 0 ∙ ap (λ m. slice col m 0) (sym h) ∙ slice_whole col

  module _ (count : Format ℕ) (number : Format F) (near : F → F)
      (counts : (n : ℕ) → IsReadable count n)
      (numbers : (x : F) → IsReadableAs number x (near x)) where
    halves_near :
        (col : List F) (n : ℕ)
        → length col ≡ n + n
        → map near (slice col n 0) ++ map near (slice col n (0 + n)) ≡ map near col
    halves_near col n h =
        append-map near (slice col n 0) (slice col n (0 + n)) ∙ ap (map near) (halves col n h)

    -- The next number, after one blank.
    next :
        (x : F) (blank c : ℕ) (rest : List ℕ)
        → is_space blank ≡ true
        → is_space c ≡ true
        → number.read (good_input (blank ∷ shown count number x c rest))
          ≡ (near x, good_input (c ∷ rest))
    next x blank c rest h k = numbers x (blank ∷ []) rest c (h, tt) k

    read_coordinates_lem :
        (col : List F) (n left i : ℕ)
        → read_coordinates count number left
            (good_input (b'\n' ∷ coordinate_lines count number col n left i))
          ≡ (map near (slice col left i), map near (slice col left (i + n)))
    unfolding read_coordinates coordinate_lines
    read_coordinates_lem col n zero i = refl
    read_coordinates_lem col n (suc left) i =
        let later = coordinate_lines count number col n left (suc i) in
        let e : suc i + n ≡ suc (i + n) = omega arith in
        rw (
          next (at col i) b'\n' b'\t' (shown count number (at col (i + n)) b'\n' later) refl refl,
          next (at col (i + n)) b'\t' b'\n' later refl refl,
          read_coordinates_lem col n left (suc i),
          e,
        )

    -- Coordinates of dipoles, x and y of each, are read back from the text that is written for people,
    -- where the text of every number x is read as a number
    -- near x: each number of the result is the one near it.
    pub parse_coordinates-print_coordinates_2 :
        (col : List F)
        → length col % 2 ≡ 0
        → parse_coordinates count number (good_input (print_coordinates_2 count number col))
          ≡ ok (map near col)
    unfolding parse_coordinates print_coordinates_2
    parse_coordinates-print_coordinates_2 col h =
        let n = length col / 2 in
        let lines = coordinate_lines count number col n n 0 in
        let header : IsLine (codes "Координаты диполей") = ground arith in
        rw
          (
            get_line-append (codes "Координаты диполей") (count.show n ++ b'\n' ∷ lines) header,
            counts n [] lines b'\n' tt refl,
            read_coordinates_lem col n n 0,
          )
          (ap ok (halves_near col n (omega arith)))

    -- One line of coefficients: the two of them and what the reader skips.
    line_read :
        (x y : F) (blanks later : List ℕ)
        → All (λ b. is_space b ≡ true) blanks
        → let text = coefficient_line count number x y later in
          (number.read (good_input (blanks ++ text)) ≡ (
            near x,
            good_input (
                b'\t'
                ∷ shown count number y b'\t'
                    (shown count number (hypotenuse count number x y) b'\n' later)),
          ))
          × (number.read (
                good_input (
                  b'\t'
                  ∷ shown count number y b'\t'
                      (shown count number (hypotenuse count number x y) b'\n' later)))
              ≡ (
                near y,
                good_input (b'\t' ∷ shown count number (hypotenuse count number x y) b'\n' later),
              ))
          × (number.read
                (good_input (b'\t' ∷ shown count number (hypotenuse count number x y) b'\n' later))
              ≡ (near (hypotenuse count number x y), good_input (b'\n' ∷ later)))
    line_read x y blanks later h = (
      numbers x blanks
          (shown count number y b'\t'
            (shown count number (hypotenuse count number x y) b'\n' later))
          b'\t' h refl,
      next y b'\t' b'\t' _ refl refl,
      next (hypotenuse count number x y) b'\t' b'\n' later refl refl,
    )

    read_solution_lem :
        (sol : List F) (n left i : ℕ) (blanks : List ℕ)
        → All (λ b. is_space b ≡ true) blanks
        → read_solution count number left
            (good_input (blanks ++ solution_lines count number sol n left i))
          ≡ (
            map near (slice sol (2 * left) (2 * i)),
            map near (slice sol (2 * left) (2 * i + 2 * n)),
          )
    unfolding read_solution solution_lines
    read_solution_lem sol n zero i blanks h = refl
    read_solution_lem sol n (suc left) i blanks h =
        let later = solution_lines count number sol n left (suc i) in
        let second =
          coefficient_line count number (at sol (2 * i + 1)) (at sol (2 * i + 1 + 2 * n)) later in
        let one = line_read (at sol (2 * i)) (at sol (2 * i + 2 * n)) blanks second h in
        let two =
          line_read (at sol (2 * i + 1)) (at sol (2 * i + 1 + 2 * n)) (b'\n' ∷ []) later
            (refl, tt) in
        let e : 2 * suc left ≡ suc (suc (2 * left)) = omega arith in
        let e_0 : 2 * i + 1 ≡ suc (2 * i) = omega arith in
        let e_1 : suc (2 * i) + 2 * n ≡ suc (2 * i + 2 * n) = omega arith in
        let e_2 : 2 * suc i ≡ suc (suc (2 * i)) = omega arith in
        let e_3 : suc (suc (2 * i)) + 2 * n ≡ suc (suc (2 * i + 2 * n)) = omega arith in
        rw (
          one.0,
          one.1,
          one.2,
          two.0,
          two.1,
          two.2,
          read_solution_lem sol n left (suc i) (b'\n' ∷ []) (refl, tt),
          e,
          e_0,
          e_1,
          e_2,
          e_3,
        )

    -- The solution of a system of n dipoles, 4 * n numbers, is read back from the text that is written
    -- for people, where the text of every number x is read as a number
    -- near x: each number of the result is the one near it.
    pub parse_solution-print_solution_format_1 :
        (sol : List F)
        → length sol % 4 ≡ 0
        → parse_solution count number (good_input (print_solution_format_1 count number sol))
          ≡ ok (map near sol)
    unfolding parse_solution print_solution_format_1
    parse_solution-print_solution_format_1 sol h =
        let n = length sol / 4 in
        let lines = solution_lines count number sol n n 0 in
        let title : IsLine (codes "Решение системы диполей") = ground arith in
        let header : IsLine (codes " Ai(x\\ny)\tBi(x\\ny)\tCi(x\\ny)") = ground arith in
        let names = codes " Ai(x\\ny)\tBi(x\\ny)\tCi(x\\ny)" ++ b'\n' ∷ lines in
        rw
          (
            counts n [] (codes "Решение системы диполей" ++ b'\n' ∷ names) b'\n' tt refl,
            get_line-append [] (codes "Решение системы диполей" ++ b'\n' ∷ names) tt,
            get_line-append (codes "Решение системы диполей") names title,
            get_line-append (codes " Ai(x\\ny)\tBi(x\\ny)\tCi(x\\ny)") lines header,
            read_solution_lem sol n n 0 [] tt,
          )
          (ap ok (halves_near sol (2 * n) (omega arith)))
