-- ===== src/Clock/Order.antt =====
-- `LocationComparator` orders the locations: what `std::map` asks of a comparator.
use Prim.Native.String.{compare, String, then as lex}
use Prim.Native.Char.{code}
use Prim.Native.Nat.{Ordering, compare as compare_ℕ}
use Prim.Native.String.compare.{nil-nil, nil-cons, cons-nil, cons-cons}
use distributed_math_arh.Prelude.{
  ℕ, Bool, true, not, ◌&&◌, ◌≡◌, ◌↔◌, refl, List, [], ◌∷◌, ◌==◌, string_eq, arith,
}
use distributed_math_arh.Clock.Keys.{
  Location, texts, text_gt, first_difference, location_comparator, location_eq,
}

abbrev flip : Ordering → Ordering
flip Ordering.lt = Ordering.gt
flip Ordering.eq = Ordering.eq
flip Ordering.gt = Ordering.lt

compare_ℕ-flip : (m n : ℕ) → compare_ℕ n m ≡ flip (compare_ℕ m n)
compare_ℕ-flip m n = ground arith

lex-flip : (o p : Ordering) → lex (flip o) (flip p) ≡ flip (lex o p)
lex-flip Ordering.lt p = refl
lex-flip Ordering.eq p = refl
lex-flip Ordering.gt p = refl

compare-flip : (s t : String) → compare t s ≡ flip (compare s t)
compare-flip String.[] String.[] = simp nil-nil
compare-flip String.[] (String.◌∷◌ d t) = simp (nil-cons, cons-nil)
compare-flip (String.◌∷◌ c s) String.[] = simp (nil-cons, cons-nil)
compare-flip (String.◌∷◌ c s) (String.◌∷◌ d t) =
    rw (cons-cons c d s t, cons-cons d c t s, compare_ℕ-flip (code c) (code d), compare-flip s t)
      (lex-flip (compare_ℕ (code c) (code d)) (compare s t))

compare-lt_trans :
    (s t u : String)
    → compare s t ≡ Ordering.lt
    → compare t u ≡ Ordering.lt
    → compare s u ≡ Ordering.lt
compare-lt_trans String.[] String.[] u h k = absurd (cc (nil-nil))
compare-lt_trans String.[] (String.◌∷◌ d t) String.[] h k = absurd (cc (cons-nil d t))
compare-lt_trans String.[] (String.◌∷◌ d t) (String.◌∷◌ e u) h k = nil-cons e u
compare-lt_trans (String.◌∷◌ c s) String.[] u h k = absurd (cc (cons-nil c s))
compare-lt_trans (String.◌∷◌ c s) (String.◌∷◌ d t) String.[] h k = absurd (cc (cons-nil d t))
compare-lt_trans (String.◌∷◌ c s) (String.◌∷◌ d t) (String.◌∷◌ e u) h k =
    ground (arith, cons-cons c d s t, cons-cons d e t u, cons-cons c e s u, compare-lt_trans s t u)

-- What a comparator of texts answers, in terms of the order above.
before : (a b : String) → (text_gt b a ≡ true) ↔ (compare a b ≡ Ordering.lt)
before a b = ground (arith, compare-flip a b)

differ : (a b : String) → ((a == b) ≡ true) ↔ (compare a b ≡ Ordering.eq)
differ a b = ground arith

first_difference_trans :
    (xs ys zs : List String)
    → first_difference xs ys ≡ true
    → first_difference ys zs ≡ true
    → first_difference xs zs ≡ true
unfolding first_difference
first_difference_trans [] ys zs h k = absurd cc
first_difference_trans (x ∷ xs) [] zs h k = absurd cc
first_difference_trans (x ∷ xs) (y ∷ ys) [] h k = absurd cc
first_difference_trans (x ∷ xs) (y ∷ ys) (z ∷ zs) h k = ground (
  arith,
  first_difference_trans xs ys zs,
  string_eq.beq_iff x y,
  string_eq.beq_iff y z,
  string_eq.beq_iff x z,
  compare-flip x y,
  compare-flip y z,
  compare-flip x z,
  compare-lt_trans x y z,
)

abbrev all_equal : List String → List String → Bool
all_equal (x ∷ xs) (y ∷ ys) = x == y && all_equal xs ys
all_equal _ _ = true

first_difference_equivalence :
    (xs ys : List String)
    → (not (first_difference xs ys) && not (first_difference ys xs)) ≡ all_equal xs ys
unfolding first_difference
first_difference_equivalence [] [] = refl
first_difference_equivalence [] (y ∷ ys) = refl
first_difference_equivalence (x ∷ xs) [] = refl
first_difference_equivalence (x ∷ xs) (y ∷ ys) = ground (
  arith,
  first_difference_equivalence xs ys,
  string_eq.beq_iff x y,
  string_eq.beq_iff y x,
  compare-flip x y,
)

-- Neither of two locations comes before the other exactly if all their five texts are equal: the map
-- takes two locations for one key only if they are the same.
pub location_comparator_equivalence :
    (a b : Location) → (not (location_comparator a b) && not (location_comparator b a)) ≡ (a == b)
unfolding location_comparator
location_comparator_equivalence a b =
    ground (arith, first_difference_equivalence (texts a) (texts b))

-- A location that comes before one that comes before a third comes before the third.
pub location_comparator_trans :
    (a b c : Location)
    → location_comparator a b ≡ true
    → location_comparator b c ≡ true
    → location_comparator a c ≡ true
unfolding location_comparator
location_comparator_trans a b c h k = first_difference_trans (texts a) (texts b) (texts c) h k
