-- ===== src/CompNode/Benchmark.antt =====
-- What a benchmark reports.
use distributed_math_arh.Prelude.{
  ℕ, ◌*◌, ◌/◌, ◌%◌, ◌<◌, ◌≤◌, ◌≡◌, ◌≢◌, refl, ap, arith, List, [], ◌∷◌, All, u64,
}
use distributed_math_arh.Outcome.{ok}
use distributed_math_arh.CompNode.{iter_num, run_single_benchmark, run_benchmark}

-- Each result is the time of its run, scaled from the count of the run to the whole number of iterations.
abbrev pub Extrapolates : (ℕ → ℕ → ℕ) → List (ℕ × ℕ) → List ℕ → Type 0
Extrapolates time [] [] = Unit
Extrapolates time ((n, c) ∷ runs) (x ∷ xs) =
    (x * c ≡ time n c * iter_num) × Extrapolates time runs xs
Extrapolates time _ _ = ⊥

abbrev pub Fits : (ℕ → ℕ → ℕ) → ℕ × ℕ → Type 0
Fits time (n, c) = (c ≢ 0) × (iter_num % c ≡ 0) × (time n c * iter_num < u64)

scaled_back :
    (t c : ℕ)
    → c ≢ 0
    → iter_num % c ≡ 0
    → t * iter_num < u64
    → t * (iter_num / c) % u64 * c ≡ t * iter_num
scaled_back t c h d b =
    let whole : c * (iter_num / c) ≡ iter_num = grind arith in
    let part : iter_num / c ≤ iter_num = grind arith in
    let small : t * (iter_num / c) ≤ t * iter_num = grind arith in
    let kept : t * (iter_num / c) % u64 ≡ t * (iter_num / c) = omega arith in
    rw kept (grind (arith, ap (λ (k : ℕ). t * k) whole))

-- Where every count divides the number of iterations and no time overflows when it is scaled, the
-- benchmark ends, and each of its results is the time of its run scaled from the run's count to the
-- whole number of iterations, without rounding.
pub run_benchmark-Extrapolates :
    (time : ℕ → ℕ → ℕ) (runs : List (ℕ × ℕ))
    → All (Fits time) runs
    → (results : List ℕ) × (run_benchmark time runs ≡ ok results) × Extrapolates time runs results
unfolding run_benchmark run_single_benchmark
run_benchmark-Extrapolates time [] h = ([], refl, tt)
run_benchmark-Extrapolates time ((n, c) ∷ runs) h =
    let (results, e, later) = run_benchmark-Extrapolates time runs h.1 in
    let fits = h.0 in
    (
      time n c * (iter_num / c) % u64 ∷ results,
      ground (arith, e, fits),
      (scaled_back (time n c) c fits.0 fits.1 fits.2, later),
    )
