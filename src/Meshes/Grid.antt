-- ===== src/Meshes/Grid.antt =====
-- Where the elements of the arrays of a mesh stand.
use distributed_math_arh.Prelude.{
  ℕ, zero, suc, ◌+◌, ◌*◌, ◌<◌, ◌≡◌, refl, sym, ap, ◌∙◌, arith, List, [], ◌∷◌, ◌++◌, length, get_or,
  replicate, length-append, length-replicate,
}
use distributed_math_arh.Numbers.{Numbers}
use distributed_math_arh.Meshes.{tabulate, zip_with, my_mesh_grid}

pub length-tabulate : {A : Type 0} (n : ℕ) (f : ℕ → A) → length (tabulate n f) ≡ n
length-tabulate zero f = refl
length-tabulate (suc n) f = ap suc (length-tabulate n (λ i. f (suc i)))

pub get_or-tabulate :
    {A : Type 0} (n : ℕ) (f : ℕ → A) (i : ℕ) (d : A) → i < n → get_or (tabulate n f) i d ≡ f i
get_or-tabulate zero f i d h = absurd (omega arith)
get_or-tabulate (suc n) f zero d h = refl
get_or-tabulate (suc n) f (suc i) d h = get_or-tabulate n (λ i. f (suc i)) i d (omega arith)

-- A list that is written out element by element is the list.
pub tabulate-get_or :
    {A : Type 0} (xs : List A) (d : A) → tabulate (length xs) (λ i. get_or xs i d) ≡ xs
tabulate-get_or [] d = refl
tabulate-get_or (x ∷ xs) d = ap (λ l. x ∷ l) (tabulate-get_or xs d)

get_or-append_left :
    {A : Type 0} (xs ys : List A) (i : ℕ) (d : A)
    → i < length xs
    → get_or (xs ++ ys) i d ≡ get_or xs i d
get_or-append_left [] ys i d h = absurd (omega arith)
get_or-append_left (x ∷ xs) ys zero d h = refl
get_or-append_left (x ∷ xs) ys (suc i) d h = get_or-append_left xs ys i d (omega arith)

get_or-append_right :
    {A : Type 0} (xs ys : List A) (i : ℕ) (d : A)
    → get_or (xs ++ ys) (length xs + i) d ≡ get_or ys i d
get_or-append_right [] ys i d = let e : 0 + i ≡ i = omega arith in ap (λ k. get_or ys k d) e
get_or-append_right (x ∷ xs) ys i d =
    let e : suc (length xs) + i ≡ suc (length xs + i) = omega arith in
    ap (λ k. get_or (x ∷ (xs ++ ys)) k d) e ∙ get_or-append_right xs ys i d

get_or-replicate : {A : Type 0} (n : ℕ) (a d : A) (i : ℕ) → i < n → get_or (replicate n a) i d ≡ a
get_or-replicate zero a d i h = absurd (omega arith)
get_or-replicate (suc n) a d zero h = refl
get_or-replicate (suc n) a d (suc i) h = get_or-replicate n a d i (omega arith)

pub get_or-zip_with :
    {A B C : Type 0} (f : A → B → C) (xs : List A) (ys : List B) (i : ℕ) (a : A) (b : B) (c : C)
    → i < length xs
    → length xs ≡ length ys
    → get_or (zip_with f xs ys) i c ≡ f (get_or xs i a) (get_or ys i b)
get_or-zip_with f [] ys i a b c h e = absurd (omega arith)
get_or-zip_with f (x ∷ xs) [] i a b c h e = absurd (omega arith)
get_or-zip_with f (x ∷ xs) (y ∷ ys) zero a b c h e = refl
get_or-zip_with f (x ∷ xs) (y ∷ ys) (suc i) a b c h e =
    get_or-zip_with f xs ys i a b c (omega arith) (omega arith)

pub length-zip_with :
    {A B C : Type 0} (f : A → B → C) (xs : List A) (ys : List B)
    → length xs ≡ length ys
    → length (zip_with f xs ys) ≡ length xs
length-zip_with f [] ys e = refl
length-zip_with f (x ∷ xs) [] e = absurd (omega arith)
length-zip_with f (x ∷ xs) (y ∷ ys) e = ap suc (length-zip_with f xs ys (omega arith))

module _ {F : Type 0} ⦃num : Numbers F⦄ (a : List F) where
  pub length-my_mesh_grid :
      (b : List F)
      → (length (my_mesh_grid a b).0 ≡ length b * length a)
        × (length (my_mesh_grid a b).1 ≡ length b * length a)
  unfolding my_mesh_grid
  length-my_mesh_grid [] = (omega arith, omega arith)
  length-my_mesh_grid (y ∷ b) =
      let later = length-my_mesh_grid b in
      (
        length-append a (my_mesh_grid a b).0 ∙ grind (arith, later.0),
        length-append (replicate (length a) y) (my_mesh_grid a b).1
            ∙ grind (arith, later.1, length-replicate (length a) y),
      )

  -- Element i * a.size() + j of the two arrays is element j of `a` and element i of `b`.
  pub get_or-my_mesh_grid :
      (b : List F) (i j : ℕ) (d : F)
      → i < length b
      → j < length a
      → (get_or (my_mesh_grid a b).0 (i * length a + j) d ≡ get_or a j d)
        × (get_or (my_mesh_grid a b).1 (i * length a + j) d ≡ get_or b i d)
  unfolding my_mesh_grid
  get_or-my_mesh_grid [] i j d hi hj = absurd (omega arith)
  get_or-my_mesh_grid (y ∷ b) zero j d hi hj =
      let e : 0 * length a + j ≡ j = omega arith in
      rw e (
        get_or-append_left a (my_mesh_grid a b).0 j d hj,
        get_or-append_left (replicate (length a) y) (my_mesh_grid a b).1 j d
              (omega (arith, length-replicate (length a) y))
            ∙ get_or-replicate (length a) y d j hj,
      )
  get_or-my_mesh_grid (y ∷ b) (suc i) j d hi hj =
      let e : suc i * length a + j ≡ length a + (i * length a + j) = grind arith in
      let later = get_or-my_mesh_grid b i j d (omega arith) hj in
      let size = length-replicate (length a) y in
      rw e (
        get_or-append_right a (my_mesh_grid a b).0 (i * length a + j) d ∙ later.0,
        ap (λ n. get_or (replicate (length a) y ++ (my_mesh_grid a b).1) (n + (i * length a + j)) d)
              (sym size)
            ∙ get_or-append_right (replicate (length a) y) (my_mesh_grid a b).1 (i * length a + j) d
            ∙ later.1,
      )
