-- ===== src/Task/Slice.antt =====
-- Properties of `TestSolveParam::SliceAway` (lib/network_shared/networkTypes.cpp).
use distributed_math_arh.Prelude.{
  ℕ, zero, suc, ◌+◌, ◌-◌, ◌≤◌, ◌<◌, ◌≡◌, ap, ◌⊎◌, List, [], ◌∷◌, ◌++◌, arith, u64, add64, sub64,
}
use distributed_math_arh.Outcome.{ok, throw, out_of_range}
use distributed_math_arh.Task.{TestSolveParam, range_size, slice_away}

-- The iterations from `i` on, `n` of them.
pub span : ℕ → ℕ → List ℕ
span i zero = []
span i (suc n) = i ∷ span (suc i) n

pub span-append : (i m n : ℕ) → span i (m + n) ≡ span i m ++ span (i + m) n
unfolding span
span-append i zero n =
    let e : 0 + n ≡ n = omega arith in let f : i + 0 ≡ i = omega arith in rw (e, f)
span-append i (suc m) n =
    let e : suc m + n ≡ suc (m + n) = omega arith in
    let f : i + suc m ≡ suc i + m = omega arith in rw (e, f) (ap (◌∷◌ i) (span-append (suc i) m n))

-- A range as a machine can hold it: not empty, its ends below 2^64, and its size too.
pub record IsRange {F : Type 0} (ts : TestSolveParam F) : Type 0 where
  pub ordered : ts.range_first ≤ ts.range_second
  pub bounded : ts.range_second + 1 < u64

module _ {F : Type 0} where
  -- The iterations that a task asks for.
  unfoldable pub iterations : TestSolveParam F → List ℕ
  iterations ts = span ts.range_first (ts.range_second + 1 - ts.range_first)

  abbrev pub block : TestSolveParam F → ℕ → TestSolveParam F
  block ts k = record ts { range_second = ts.range_first + k - 1 }

  abbrev pub rest : TestSolveParam F → ℕ → TestSolveParam F
  rest ts k = record ts { range_first = ts.range_first + k }

  pub range_size_lem :
      (ts : TestSolveParam F) → IsRange ts → range_size ts ≡ ts.range_second + 1 - ts.range_first
  unfolding range_size
  range_size_lem ts v = omega arith

  module _ (ts : TestSolveParam F) (k : ℕ) (v : IsRange ts) where
    pub slice_away_accepts :
        0 < k → k < range_size ts → slice_away ts k ≡ ok (block ts k, rest ts k)
    unfolding slice_away
    slice_away_accepts pos fits = ground (arith, range_size_lem ts v)

    block-IsRange : 0 < k → k < range_size ts → IsRange (block ts k)
    block-IsRange pos fits = omega (arith, range_size_lem ts v)

    pub rest-IsRange : 0 < k → k < range_size ts → IsRange (rest ts k)
    rest-IsRange pos fits = omega (arith, range_size_lem ts v)

    pub iterations-cut :
        0 < k
        → k < range_size ts
        → iterations ts ≡ iterations (block ts k) ++ iterations (rest ts k)
    unfolding iterations
    iterations-cut pos fits =
        let e : ts.range_second + 1 - ts.range_first
            ≡ k + (ts.range_second + 1 - (ts.range_first + k)) =
          omega (arith, range_size_lem ts v) in
        let f : ts.range_first + k - 1 + 1 - ts.range_first ≡ k = omega arith in
        rw (e, f) (span-append ts.range_first k (ts.range_second + 1 - (ts.range_first + k)))

    pub range_size-rest : 0 < k → k < range_size ts → range_size (rest ts k) + k ≡ range_size ts
    range_size-rest pos fits =
        omega (arith, range_size_lem ts v, range_size_lem (rest ts k) (rest-IsRange pos fits))

    range_size-block : 0 < k → k < range_size ts → range_size (block ts k) ≡ k
    range_size-block pos fits =
        omega (arith, range_size_lem ts v, range_size_lem (block ts k) (block-IsRange pos fits))

    -- A cut of k iterations, with 0 < k < the size of the range, succeeds; the block has the first k
    -- iterations and the task keeps the others, in order, so none is lost or in both; both are again
    -- ranges that fit the machine.
    pub slice_away_cuts :
        0 < k
        → k < range_size ts
        → (slice_away ts k ≡ ok (block ts k, rest ts k))
          × (iterations ts ≡ iterations (block ts k) ++ iterations (rest ts k))
          × (range_size (block ts k) ≡ k)
          × (range_size (rest ts k) + k ≡ range_size ts)
          × IsRange (block ts k)
          × IsRange (rest ts k)
    slice_away_cuts pos fits = (
      slice_away_accepts pos fits,
      iterations-cut pos fits,
      range_size-block pos fits,
      range_size-rest pos fits,
      block-IsRange pos fits,
      rest-IsRange pos fits,
    )

    -- A cut of no iterations, or of the whole range or more, raises `outOfRange` with the bounds
    -- 1 and the size of the range, as long as the end of the cut does not wrap around.
    pub slice_away_refuses :
        (k ≡ 0) ⊎ (range_size ts ≤ k)
        → ts.range_first + k < u64
        → slice_away ts k ≡ throw (out_of_range k 1 (range_size ts))
    unfolding slice_away
    slice_away_refuses bad fits = ground (arith, range_size_lem ts v)

    -- The guard adds without care for overflow: every count that takes the end past 2^64 is accepted,
    -- and the task that stays behind then starts before the original one.
    pub slice_away_wraps :
        k < u64
        → u64 ≤ ts.range_first + k
        → (a b : TestSolveParam F) × (slice_away ts k ≡ ok (a, b))
          × (b.range_first < ts.range_first)
          × (range_size ts < range_size b)
    unfolding slice_away range_size
    slice_away_wraps small over = (
      record ts { range_second = sub64 (add64 ts.range_first k) 1 },
      record ts { range_first = add64 ts.range_first k },
      ground arith,
      omega (arith, v),
      omega (arith, v),
    )
