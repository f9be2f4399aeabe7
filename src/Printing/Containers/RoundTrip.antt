-- ===== src/Printing/Containers/RoundTrip.antt =====
-- Containers and matrices that are written as text are read back.
use mathlib.Core.List.{append_assoc}
use distributed_math_arh.Prelude.{
  ℕ, map, ◌≡◌, refl, sym, ap, ◌∙◌, arith, Bool, true, false, inl, inr, Bool-cases, List, [], ◌∷◌,
  ◌++◌, All, length, none, some, if◌then◌else◌,
}
use distributed_math_arh.Outcome.{Outcome, ok, ◌>>=◌}
use distributed_math_arh.Printing.{
  Input, good_input, is_space, only_spaces, is_only_whitespace, Format, read_delimiter, parse_delim,
}
use distributed_math_arh.Printing.Delimiters.{
  match_characters-append, read_delimiter_lem, read_delimiter_blank,
}
use distributed_math_arh.Printing.Coordinates.{IsReadable}
use distributed_math_arh.Printing.Formats.{EFormat}
use distributed_math_arh.Printing.Containers.{one_dim_serialize, read_elements, parse_one_dim}

abbrev pub Blank : List ℕ → Type 0
Blank cs = All (λ c. is_space c ≡ true) cs

only_spaces-Blank : (cs : List ℕ) → only_spaces cs ≡ true → Blank cs
only_spaces-Blank [] h = tt
only_spaces-Blank (c ∷ cs) h = ground (arith, only_spaces-Blank cs)

pub Blank-append : (as' bs : List ℕ) → Blank as' → Blank bs → Blank (as' ++ bs)
Blank-append [] bs h k = k
Blank-append (a ∷ as') bs h k = (h.0, Blank-append as' bs h.1 k)

is_only_whitespace-Blank : (s : List ℕ) → is_only_whitespace s ≡ true → Blank s
unfolding is_only_whitespace
is_only_whitespace-Blank [] h = tt
is_only_whitespace-Blank (c ∷ s) h = only_spaces-Blank (c ∷ s) h

-- A delimiter is passed: what is left is the text after it, or with the delimiter if this is blank.
delimiter_passes :
    (str cs : List ℕ)
    → (lead : List ℕ) × Blank lead
      × ((parse_delim str (good_input (str ++ cs))).1 ≡ good_input (lead ++ cs))
unfolding parse_delim
delimiter_passes str cs = elim (Bool-cases (is_only_whitespace str)) [
  | inl blank ↦
      (str, is_only_whitespace-Blank str blank, read_delimiter_blank str (str ++ cs) blank)
  | inr solid ↦ ([], tt, read_delimiter_lem str (str ++ cs) solid ∙ match_characters-append str cs)
]

only_spaces-true : (cs : List ℕ) → Blank cs → only_spaces cs ≡ true
only_spaces-true [] h = refl
only_spaces-true (c ∷ cs) h = rw (h.0, only_spaces-true cs h.1) refl

-- A blank delimiter, or one of no characters, leaves the stream as it is.
pub delimiter_stays :
    (str cs : List ℕ) → Blank str → (parse_delim str (good_input cs)).1 ≡ good_input cs
unfolding parse_delim read_delimiter is_only_whitespace
delimiter_stays [] cs h = refl
delimiter_stays (c ∷ str) cs h = read_delimiter_blank (c ∷ str) cs (only_spaces-true (c ∷ str) h)

-- Where a number's text ends: at the end of the stream, or before a character that ends numbers.
abbrev pub Ends : (ℕ → Bool) → List ℕ → Type 0
Ends ends [] = Unit
Ends ends (c ∷ cs) = ends c ≡ true

-- The stream after a number; at the end of the text it has ended.
abbrev pub after_number : List ℕ → Input
after_number [] = record { rest = []; failed = false; ended = true }
after_number (c ∷ cs) = good_input (c ∷ cs)

-- After blanks, and before a text that ends numbers, what is written of `a` is read as `b`.
abbrev pub IsReadableTo : {A : Type 0} → (ℕ → Bool) → Format A → A → A → Type 0
IsReadableTo ends format a b =
    (blanks tail : List ℕ)
    → Blank blanks
    → Ends ends tail
    → format.read (good_input (blanks ++ (format.show a ++ tail))) ≡ (b, after_number tail)

-- A text that is not empty, and whose first character ends numbers.
abbrev pub Separates : (ℕ → Bool) → List ℕ → Type 0
Separates ends [] = ⊥
Separates ends (c ∷ cs) = ends c ≡ true

pub Separates-Ends :
    (ends : ℕ → Bool) (s tail : List ℕ)
    → Separates ends s
    → Ends ends (s ++ tail) × (after_number (s ++ tail) ≡ good_input (s ++ tail))
Separates-Ends ends [] tail h = absurd h
Separates-Ends ends (c ∷ s) tail h = (h, refl)

-- A reader passes the separator that a format writes, except for blanks.
abbrev pub Passes : EFormat → EFormat → Type 0
Passes reader form =
    (cs : List ℕ)
    → (next : List ℕ) × Blank next
      × ((parse_delim reader.coeff_separator (good_input (form.coeff_separator ++ cs))).1
          ≡ good_input (next ++ cs))

module _ {F : Type 0} (number : Format F) where
  -- One row as Eigen writes it, where `pad` aligns the elements.
  abbrev pub row_text : EFormat → (F → List ℕ) → List F → List ℕ → List ℕ
  row_text form pad [] tail = tail
  row_text form pad (x ∷ []) tail = pad x ++ (number.show x ++ tail)
  row_text form pad (x ∷ y ∷ xs) tail =
      pad x ++ (number.show x ++ (form.coeff_separator ++ row_text form pad (y ∷ xs) tail))

  module _ (ends : ℕ → Bool) (near : F → F)
      (numbers : (x : F) → IsReadableTo ends number x (near x)) (form : EFormat) (pad : F → List ℕ)
      (blank_pads : (x : F) → Blank (pad x)) where
    pub element_read :
        (x : F) (lead tail : List ℕ)
        → Blank lead
        → Ends ends tail
        → number.read (good_input (lead ++ (pad x ++ (number.show x ++ tail))))
          ≡ (near x, after_number tail)
    element_read x lead tail h k =
        ap (λ t. number.read (good_input t))
          (sym (append_assoc lead (pad x) (number.show x ++ tail)))
        ∙ numbers x (lead ++ pad x) tail (Blank-append lead (pad x) h (blank_pads x)) k

    pub read_elements_lem :
        (reader : EFormat) (x : F) (xs : List F) (lead tail : List ℕ)
        → Passes reader form
        → Separates ends form.coeff_separator
        → Blank lead
        → Ends ends tail
        → (read_elements number reader
            (length (x ∷ xs))
            (good_input (lead ++ row_text form pad (x ∷ xs) tail))).0
          ≡ map near (x ∷ xs)
    unfolding read_elements
    read_elements_lem reader x [] lead tail passes separates h k =
        rw (element_read x lead tail h k) refl
    read_elements_lem reader x (y ∷ xs) lead tail passes separates h k =
        let later = row_text form pad (y ∷ xs) tail in
        let (next, blank, passed) = passes later in
        let stop = Separates-Ends ends form.coeff_separator later separates in
        rw (element_read x lead (form.coeff_separator ++ later) h stop.0, stop.1, passed)
          (ap (λ l. near x ∷ l) (read_elements_lem reader y xs next tail passes separates blank k))

  abbrev pub outcome_of : EFormat → List F × Input → Outcome (List F × Input)
  outcome_of form elements = ok (elements.0, (parse_delim form.row_suffix elements.1).1)

  -- The elements that were read are the container; what is left is the stream after them.
  pub finished :
      (form : EFormat) (n : ℕ) (input : Input) (col : List F)
      → (read_elements number form n input).0 ≡ col
      → (after : Input) × (outcome_of form (read_elements number form n input) ≡ ok (col, after))
  finished form n input col e =
      let after = (parse_delim form.row_suffix (read_elements number form n input).1).1 in
      (after, ap (λ (l : List F). ok (l, after)) e)

  -- What Eigen makes of a single row: the elements, which it may align, between the delimiters.
  abbrev pub WritesRow : (EFormat → List (List F) → List ℕ) → EFormat → List F → Type 0
  WritesRow eigen_text form row =
      (pad : F → List ℕ) × ((x : F) → Blank (pad x))
      × (eigen_text form (row ∷ [])
          ≡ form.mat_prefix
            ++ (form.row_prefix ++ row_text form pad row (form.row_suffix ++ form.mat_suffix)))

  module _ (count : Format ℕ) (eigen_text : EFormat → List (List F) → List ℕ) (ends : ℕ → Bool)
      (counts : (n : ℕ) → IsReadable count n) (near : F → F)
      (numbers : (x : F) → IsReadableTo ends number x (near x)) where
    -- Where the text of every number x is read as a number near x, and every count is read as itself, a
    -- container that is not empty is read back, with its size or without it as it was written, as the
    -- numbers near its own. Eigen writes the row between the delimiters of the format and puts nothing
    -- before the row prefix; the separator is not empty, and both it and what ends the row begin with
    -- a character that ends a number; a row prefix after a size is blank.
    pub parse_one_dim-one_dim_serialize :
        (form : EFormat) (size : Bool) (x : F) (xs : List F)
        → WritesRow eigen_text form (x ∷ xs)
        → form.mat_prefix ≡ []
        → Separates ends form.coeff_separator
        → Ends ends (form.row_suffix ++ form.mat_suffix)
        → (size ≡ true → Blank form.row_prefix)
        → (after : Input) × ((one_dim_serialize count eigen_text form size (x ∷ xs) >>= λ text.
              parse_one_dim count number form
                (if size then none else some (length (x ∷ xs)))
                (good_input text))
            ≡ ok (map near (x ∷ xs), after))
    unfolding one_dim_serialize parse_one_dim
    parse_one_dim-one_dim_serialize form true x xs (pad, blank_pads, written) no_prefix separates
          stops blank =
        let row = row_text form pad (x ∷ xs) (form.row_suffix ++ form.mat_suffix) in
        let text : eigen_text form ((x ∷ xs) ∷ []) ≡ form.row_prefix ++ row =
          written ∙ ap (λ p. p ++ (form.row_prefix ++ row)) no_prefix in
        let counted = counts (length (x ∷ xs)) [] (form.row_prefix ++ row) b'\n' tt refl in
        let passed =
          delimiter_stays form.row_prefix (b'\n' ∷ (form.row_prefix ++ row)) (blank refl) in
        let elements =
          read_elements_lem ends near numbers form pad blank_pads form x xs
            (b'\n' ∷ form.row_prefix) (form.row_suffix ++ form.mat_suffix)
            (delimiter_passes form.coeff_separator) separates (refl, blank refl) stops in
        rw (text, counted, passed)
          (finished form (length (x ∷ xs)) (good_input (b'\n' ∷ (form.row_prefix ++ row)))
            (map near (x ∷ xs)) elements)
    parse_one_dim-one_dim_serialize form false x xs (pad, blank_pads, written) no_prefix separates
          stops blank =
        let row = row_text form pad (x ∷ xs) (form.row_suffix ++ form.mat_suffix) in
        let text : eigen_text form ((x ∷ xs) ∷ []) ≡ form.row_prefix ++ row =
          written ∙ ap (λ p. p ++ (form.row_prefix ++ row)) no_prefix in
        let (lead, blank_lead, passed) = delimiter_passes form.row_prefix row in
        let elements =
          read_elements_lem ends near numbers form pad blank_pads form x xs lead
            (form.row_suffix ++ form.mat_suffix) (delimiter_passes form.coeff_separator) separates
            blank_lead stops in
        rw (text, passed)
          (finished form (length (x ∷ xs)) (good_input (lead ++ row)) (map near (x ∷ xs)) elements)
