-- ===== src/Printing.antt =====
-- utilLib/include/common/printUtils.h, Printers.h and Parsers.h, with lib/common/printUtils.cpp and
-- Parsers.cpp: text that is written to streams and read from them. A stream is the characters that are
-- left, as code points, and its error state. How a number is written and read is an argument.
pub mod Delimiters
pub mod Coordinates
pub mod Containers
pub mod Formats
pub mod Examples
use Prim.Native.String
use Prim.Native.Char.{code}
use distributed_math_arh.Prelude.{
  ℕ, zero, suc, ◌+◌, ◌*◌, ◌/◌, Bool, true, false, not, ◌&&◌, ◌||◌, List, [], ◌∷◌, ◌++◌, Option,
  none, some, length, get_or, nat_beq, String, leb, if◌then◌else◌,
}
use distributed_math_arh.Outcome.{Outcome, ok, throw, io_error, ◌>>=◌}
use distributed_math_arh.ConnectionString.{decimal}
use distributed_math_arh.Numbers.{Numbers, ◌⊕◌, ◌⊗◌}

-- failbit and eofbit
pub record Input : Type 0 where
  pub rest : List ℕ
  pub failed : Bool
  pub ended : Bool

-- A stream without errors.
abbrev pub good_input : List ℕ → Input
good_input cs = record { rest = cs; failed = false; ended = false }

-- in.good(), and !in
abbrev pub good : Input → Bool
good input = not input.failed && not input.ended

-- in.rdstate()
abbrev pub rdstate : Input → ℕ
rdstate input = (if input.failed then 4 else 0) + (if input.ended then 2 else 0)

abbrev pub set_failed : Input → Input
set_failed input = record input { failed = true }

-- std::isspace
abbrev pub is_space : ℕ → Bool
is_space c = nat_beq c b' ' || leb 9 c && leb c 13

-- How values of a type are written, and read by `>>`.
pub record Format (A : Type 0) : Type 0 where
  pub show : A → List ℕ
  pub read : Input → A × Input

abbrev pub only_spaces : List ℕ → Bool
only_spaces [] = true
only_spaces (c ∷ cs) = is_space c && only_spaces cs

unfoldable pub is_only_whitespace : List ℕ → Bool
is_only_whitespace [] = false
is_only_whitespace (c ∷ cs) = only_spaces (c ∷ cs)

-- is.get(c) and c != kCh, for each character of the delimiter, on a stream without errors
unfoldable pub match_characters : List ℕ → List ℕ → Input
match_characters [] cs = good_input cs
match_characters (k ∷ ks) [] = record { rest = []; failed = true; ended = true }
match_characters (k ∷ ks) (c ∷ cs) =
    let later = match_characters ks cs in
    if nat_beq c k then later else record { rest = cs; failed = true; ended = false }

-- On a stream with an error the first `get` fails.
abbrev pub read_characters : List ℕ → Input → Input
read_characters [] input = input
read_characters (k ∷ ks) input =
    if good input then match_characters (k ∷ ks) input.rest else set_failed input

unfoldable pub read_delimiter : List ℕ → Input → Input
read_delimiter str input = if is_only_whitespace str then input else read_characters str input

unfoldable pub parse_delim : List ℕ → Input → Bool × Input
parse_delim str input = let after = read_delimiter str input in (good after, after)

-- std::getline: the characters up to the end of the line, and what comes after it.
abbrev pub line_of : List ℕ → List ℕ × Option (List ℕ)
line_of [] = ([], none)
line_of (c ∷ cs) =
    let later = line_of cs in if nat_beq c b'\n' then ([], some cs) else (c ∷ later.0, later.1)

abbrev pub after_line : Option (List ℕ) → Bool → Input → Input
after_line none empty input = record input { rest = []; failed = empty; ended = true }
after_line (some cs) empty input = record input { rest = cs }

unfoldable pub get_line : Input → Input
get_line input =
    if good input
    then after_line (line_of input.rest).1 (nat_beq (length input.rest) 0) input
    else set_failed input

-- std::string to characters
abbrev pub codes : String → List ℕ
codes String.[] = []
codes (String.◌∷◌ c s) = code c ∷ codes s

module _ {F : Type 0} ⦃num : Numbers F⦄ (count : Format ℕ) (number : Format F) where
  abbrev at : List F → ℕ → F
  at col i = get_or col i (num.lit 0)

  -- A value and the separator that follows it.
  abbrev pub shown : F → ℕ → List ℕ → List ℕ
  shown x separator later = number.show x ++ separator ∷ later

  -- The lines of the loop for i, ..., n - 1, where `left` counts those that are left.
  unfoldable pub coordinate_lines : List F → ℕ → ℕ → ℕ → List ℕ
  coordinate_lines col n zero i = []
  coordinate_lines col n (suc left) i =
      shown (at col i) b'\t' (shown (at col (i + n)) b'\n' (coordinate_lines col n left (suc i)))

  unfoldable pub print_coordinates_2 : List F → List ℕ
  print_coordinates_2 col =
      let n = length col / 2 in
      codes "Координаты диполей" ++ b'\n' ∷ (count.show n ++ b'\n' ∷ coordinate_lines col n n 0)

  -- The source's cx or cy of the coefficients x and y.
  abbrev pub hypotenuse : F → F → F
  hypotenuse x y = num.sqrt (x ⊗ x ⊕ y ⊗ y)

  abbrev pub coefficient_line : F → F → List ℕ → List ℕ
  coefficient_line x y later = shown x b'\t' (shown y b'\t' (shown (hypotenuse x y) b'\n' later))

  unfoldable pub solution_lines : List F → ℕ → ℕ → ℕ → List ℕ
  solution_lines sol n zero i = []
  solution_lines sol n (suc left) i = coefficient_line (at sol (2 * i)) (at sol (2 * i + 2 * n)) (
      coefficient_line (at sol (2 * i + 1)) (at sol (2 * i + 1 + 2 * n))
        (solution_lines sol n left (suc i)))

  unfoldable pub print_solution_format_1 : List F → List ℕ
  print_solution_format_1 sol =
      let n = length sol / 4 in
      count.show n
      ++ b'\n'
        ∷ (codes "Решение системы диполей"
            ++ b'\n'
              ∷ (codes " Ai(x\\ny)\tBi(x\\ny)\tCi(x\\ny)" ++ b'\n' ∷ solution_lines sol n n 0))

  -- in >> coord[i] >> coord[i + n], for each i: the two halves.
  unfoldable pub read_coordinates : ℕ → Input → List F × List F
  read_coordinates zero input = ([], [])
  read_coordinates (suc n) input =
      let (x, after_x) = number.read input in
      let (y, after_y) = number.read after_x in
      let later = read_coordinates n after_y in (x ∷ later.0, y ∷ later.1)

  unfoldable pub parse_coordinates : Input → Outcome (List F)
  parse_coordinates input =
      let (n, after) = count.read (get_line input) in
      if after.failed
      then throw (io_error (decimal 1 (rdstate after)))
      else (let coord = read_coordinates n after in ok (coord.0 ++ coord.1))

  -- in >> ax >> bx >> cx >> ay >> by >> cy, for each i: the two halves.
  unfoldable pub read_solution : ℕ → Input → List F × List F
  read_solution zero input = ([], [])
  read_solution (suc n) input =
      let (ax, in_1) = number.read input in
      let (bx, in_2) = number.read in_1 in
      let (cx, in_3) = number.read in_2 in
      let (ay, in_4) = number.read in_3 in
      let (by, in_5) = number.read in_4 in
      let (cy, in_6) = number.read in_5 in
      let later = read_solution n in_6 in (ax ∷ ay ∷ later.0, bx ∷ by ∷ later.1)

  unfoldable pub parse_solution : Input → Outcome (List F)
  parse_solution input =
      let (n, after) = count.read input in
      let lines = get_line (get_line (get_line after)) in
      if lines.failed
      then throw (io_error (decimal 1 (rdstate lines)))
      else (let sol = read_solution n lines in ok (sol.0 ++ sol.1))
