-- ===== src/Dipoles/Fields.antt =====
-- `GetFullFunction` of Dipoles.h: the functions of the direction that a solution gives. The source's
-- functions refer to the coordinates and to the solution that they are made of; here they hold them.
use distributed_math_arh.Prelude.{ℕ, zero, suc, ◌+◌, ◌*◌, ◌/◌, some}
use distributed_math_arh.Numbers.{Numbers, ◌⊕◌, ◌⊖◌, ◌⊗◌, ◌⊘◌, pow}
use distributed_math_arh.Dipoles.{Coordinates, size, get_element, Dipoles, speed_of_light, omega_0}

module _ {F : Type 0} ⦃num : Numbers F⦄ (xi : Coordinates F) (sol : ℕ → F) where
  -- int n = xi.size() / 2
  abbrev dipole_count : ℕ
  dipole_count = size xi / 2

  -- (ri[1] * cos(phi) - ri[0] * sin(phi)) * sin(theta)
  abbrev pub shift_of : F → F → ℕ → F
  shift_of theta phi i =
      (get_element xi 1 i dipole_count ⊗ num.cos phi
        ⊖ get_element xi 0 i dipole_count ⊗ num.sin phi)
      ⊗ num.sin theta

  -- The coefficients of dipole i
  abbrev pub a_of : ℕ → F × F
  a_of i = (sol (2 * i), sol (2 * i + 1))

  abbrev pub b_of : ℕ → F × F
  b_of i = (sol (2 * i + 2 * dipole_count), sol (2 * i + 1 + 2 * dipole_count))

  -- What dipole i adds to ress, for its times and projections. The second velocity has the sine of
  -- the frequency alone.
  unfoldable pub radiation : F → F → F → ℕ → F × F × F
  radiation theta phi t i =
      let s0 = num.cos phi in
      let s1 = num.sin phi in
      let t0 = t ⊖ (shift_of theta phi i ⊘ speed_of_light) in
      let a = a_of i in
      let b = b_of i in
      let d0 = a.0 ⊗ num.cos (omega_0 ⊗ t0) ⊕ b.0 ⊗ num.sin (omega_0 ⊗ t0) in
      let d1 = a.1 ⊗ num.cos (omega_0 ⊗ t0) ⊕ b.1 ⊗ num.sin (omega_0 ⊗ t0) in
      let v0 =
        omega_0 ⊗ (b.0 ⊗ num.cos (omega_0 ⊗ t0) ⊖ a.0 ⊗ num.sin (omega_0 ⊗ t0)) ⊘ speed_of_light in
      let v1 = omega_0 ⊗ (b.1 ⊗ num.cos (omega_0 ⊗ t0) ⊖ a.1 ⊗ num.sin omega_0) ⊘ speed_of_light in
      let a0 = num.negative (pow omega_0 2) ⊗ d0 in
      let a1 = num.negative (pow omega_0 2) ⊗ d1 in
      let vs = v0 ⊗ s0 ⊕ v1 ⊗ s1 in
      let as' = a0 ⊗ s0 ⊕ a1 ⊗ s1 in
      (
        (a0 ⊗ (vs ⊗ num.sin theta ⊖ num.lit 1) ⊕ s0 ⊗ as' ⊗ pow (num.sin theta) 2)
            ⊖ v0 ⊗ as' ⊗ num.sin theta,
        (a1 ⊗ (vs ⊗ num.sin theta ⊖ num.lit 1) ⊕ s1 ⊗ as' ⊗ pow (num.sin theta) 2)
            ⊖ v1 ⊗ as' ⊗ num.sin theta,
        as' ⊗ num.sin theta ⊗ num.cos theta,
      )

  -- for (int i = 0; i < n; ++i) ress += ...
  unfoldable pub radiated : F → F → F → ℕ → F × F × F
  radiated theta phi t zero = (num.lit 0, num.lit 0, num.lit 0)
  radiated theta phi t (suc i) =
      let ress = radiated theta phi t i in
      let more = radiation theta phi t i in (ress.0 ⊕ more.0, ress.1 ⊕ more.1, ress.2 ⊕ more.2)

  unfoldable pub integrable_function : F → F → F → F
  integrable_function theta phi t =
      let ress = radiated theta phi t dipole_count in
      ((num.lit 0 ⊕ ress.0 ⊗ ress.0) ⊕ ress.1 ⊗ ress.1) ⊕ ress.2 ⊗ ress.2

  -- What the directional graph has for one dipole: its projections and amplitudes.
  abbrev pub argument_of : F → F → ℕ → F
  argument_of phi theta i = omega_0 ⊗ shift_of theta phi i ⊘ speed_of_light

  abbrev pub dot : F × F → F × F → F
  dot a b = a.0 ⊗ b.0 ⊕ a.1 ⊗ b.1

  abbrev pub direction : F → F × F
  direction phi = (num.cos phi, num.sin phi)

  -- s * k * sinth2 - v, in one coordinate
  abbrev pub transverse : F → F → F → F → F
  transverse theta s k v = s ⊗ k ⊗ pow (num.sin theta) 2 ⊖ v

  -- pc_1 and ps_1 in one coordinate, for coefficients a and b with the projections k and l
  abbrev pub pc_1 : F → F → F → F → F → F → F → F
  pc_1 theta arg s k l a b =
      transverse theta s k a ⊗ num.cos arg ⊖ transverse theta s l b ⊗ num.sin arg

  abbrev pub ps_1 : F → F → F → F → F → F → F → F
  ps_1 theta arg s k l a b =
      transverse theta s k a ⊗ num.sin arg ⊕ transverse theta s l b ⊗ num.cos arg

  -- pcom in one coordinate, of the two products
  abbrev pub pcom : F → F → F → F
  pcom theta ab ba = num.negative (omega_0 ⊘ speed_of_light) ⊗ num.sin theta ⊗ (ab ⊖ ba)

  -- pc and ps
  abbrev pub pc : F → F → F → F
  pc arg k l = k ⊗ num.cos arg ⊖ l ⊗ num.sin arg

  abbrev pub ps : F → F → F → F
  ps arg k l = k ⊗ num.sin arg ⊕ l ⊗ num.cos arg

  -- The coefficients b of dipole j in the inner loop: the second is read at j + 1 + 2 * n.
  abbrev pub inner_b_of : ℕ → F × F
  inner_b_of j = (sol (2 * j + 2 * dipole_count), sol (j + 1 + 2 * dipole_count))

  -- What the pair of dipoles i and j adds to resxy and to resz. The product b_ajs takes b of i.
  unfoldable pub pair_of : F → F → ℕ → ℕ → F × F × F
  pair_of phi theta i j =
      let s = direction phi in
      let a = a_of i in
      let b = b_of i in
      let a' = a_of j in
      let b' = inner_b_of j in
      let arg = argument_of phi theta i in
      let arg' = argument_of phi theta j in
      let k = dot a s in
      let l = dot b s in
      let k' = dot a' s in
      let l' = dot b' s in
      (
        (pc_1 theta arg s.0 k l a.0 b.0 ⊗ pc_1 theta arg' s.0 k' l' a'.0 b'.0
              ⊕ ps_1 theta arg s.0 k l a.0 b.0 ⊗ ps_1 theta arg' s.0 k' l' a'.0 b'.0)
            ⊕ num.lit 2 ⊗ (pcom theta (a.0 ⊗ l) (b.0 ⊗ k) ⊗ pcom theta (a'.0 ⊗ l') (b.0 ⊗ k')),
        (pc_1 theta arg s.1 k l a.1 b.1 ⊗ pc_1 theta arg' s.1 k' l' a'.1 b'.1
              ⊕ ps_1 theta arg s.1 k l a.1 b.1 ⊗ ps_1 theta arg' s.1 k' l' a'.1 b'.1)
            ⊕ num.lit 2 ⊗ (pcom theta (a.1 ⊗ l) (b.1 ⊗ k) ⊗ pcom theta (a'.1 ⊗ l') (b.1 ⊗ k')),
        pc arg k l ⊗ pc arg' k' l' ⊕ ps arg k l ⊗ ps arg' k' l',
      )

  -- What dipole i adds by itself.
  unfoldable pub alone : F → F → ℕ → F × F × F
  alone phi theta i =
      let s = direction phi in
      let a = a_of i in
      let b = b_of i in
      let arg = argument_of phi theta i in
      let k = dot a s in
      let l = dot b s in
      let p = pc_1 theta arg s.0 k l a.0 b.0 in
      let q = ps_1 theta arg s.0 k l a.0 b.0 in
      let c = pcom theta (a.0 ⊗ l) (b.0 ⊗ k) in
      let p' = pc_1 theta arg s.1 k l a.1 b.1 in
      let q' = ps_1 theta arg s.1 k l a.1 b.1 in
      let c' = pcom theta (a.1 ⊗ l) (b.1 ⊗ k) in
      (
        ((p ⊗ p ⊕ q ⊗ q) ⊕ num.lit 2 ⊗ (c ⊗ c)) ⊘ num.lit 2,
        ((p' ⊗ p' ⊕ q' ⊗ q') ⊕ num.lit 2 ⊗ (c' ⊗ c')) ⊘ num.lit 2,
        (pc arg k l ⊗ pc arg k l ⊕ ps arg k l ⊗ ps arg k l) ⊘ num.lit 2,
      )

  abbrev pub add_three : F × F × F → F × F × F → F × F × F
  add_three x y = (x.0 ⊕ y.0, x.1 ⊕ y.1, x.2 ⊕ y.2)

  -- for (int j = 0; j < i; ++j), from what the loop finds
  unfoldable pub add_pairs : F → F → ℕ → ℕ → F × F × F → F × F × F
  add_pairs phi theta i zero res = res
  add_pairs phi theta i (suc j) res =
      add_three (add_pairs phi theta i j res) (pair_of phi theta i j)

  -- for (int i = 0; i < n; ++i)
  unfoldable pub add_dipoles : F → F → ℕ → F × F × F
  add_dipoles phi theta zero = (num.lit 0, num.lit 0, num.lit 0)
  add_dipoles phi theta (suc i) =
      add_three (add_pairs phi theta i i (add_dipoles phi theta i)) (alone phi theta i)

  unfoldable pub direction_graph : F → F → F
  direction_graph phi theta =
      let t_0 = num.pi ⊗ num.lit 2 ⊘ omega_0 in
      let o2 = pow omega_0 2 in
      let res = add_dipoles phi theta dipole_count in
      (res.0 ⊗ t_0 ⊗ o2 ⊗ o2 ⊕ res.1 ⊗ t_0 ⊗ o2 ⊗ o2)
      ⊕ res.2 ⊗ t_0 ⊗ (o2 ⊗ o2 ⊗ pow (num.sin theta ⊗ num.cos theta) 2)

  unfoldable pub get_full_function : Dipoles F → Dipoles F
  get_full_function d = record d {
    ifunction = some integrable_function;
    i_2_function = some direction_graph;
  }
