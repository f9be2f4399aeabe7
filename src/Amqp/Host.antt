-- ===== src/Amqp/Host.antt =====
-- `ExtractHost`: the host of a url.
use distributed_math_arh.Prelude.{
  ℕ, true, false, ◌≡◌, ◌≢◌, refl, ap, ◌∙◌, List, [], ◌∷◌, ◌++◌, some, arith, All,
}
use distributed_math_arh.Amqp.{after_scheme, host_part, ends_host, host_of, extract_host}

-- "://"
abbrev pub separator : List ℕ
separator = b':' ∷ b'/' ∷ b'/' ∷ []

-- No colon in the scheme, no end of a host in the host.
abbrev pub IsScheme : List ℕ → Type 0
IsScheme = All (λ c. c ≢ b':')

abbrev pub IsHost : List ℕ → Type 0
IsHost = All (λ c. ends_host c ≡ false)

-- A host with what follows it.
abbrev pub host_then : ℕ → List ℕ → ℕ → List ℕ → List ℕ
host_then c host end rest = c ∷ (host ++ end ∷ rest)

after_scheme_lem :
    (scheme rest : List ℕ)
    → IsScheme scheme
    → after_scheme (scheme ++ separator ++ rest) ≡ some rest
unfolding after_scheme
after_scheme_lem [] rest v = refl
after_scheme_lem (a ∷ []) rest v = ground (arith, v.0)
after_scheme_lem (a ∷ b ∷ []) rest v = ground (arith, v.0, v.1.0)
after_scheme_lem (a ∷ b ∷ c ∷ scheme) rest v =
    ground (arith, v.0, after_scheme_lem (b ∷ c ∷ scheme) rest v.1)

host_part_lem :
    (host rest : List ℕ) (end : ℕ)
    → IsHost host
    → ends_host end ≡ true
    → (host_part (host ++ end ∷ rest) ≡ host) × (host_part host ≡ host)
unfolding host_part
host_part_lem [] rest end v e = (ground arith, refl)
host_part_lem (c ∷ host) rest end (f, fs) e = ground (arith, host_part_lem host rest end fs e)

-- The host of a url whose scheme has no colon and whose host, which is not empty, has no colon, slash or
-- question mark: what stands between "://" and the first of these, or the end of the url.
pub extract_host_lem :
    (scheme host rest : List ℕ) (c end : ℕ)
    → IsScheme scheme
    → IsHost (c ∷ host)
    → ends_host end ≡ true
    → (extract_host (scheme ++ separator ++ host_then c host end rest) ≡ some (c ∷ host))
      × (extract_host (scheme ++ separator ++ c ∷ host) ≡ some (c ∷ host))
unfolding extract_host
extract_host_lem scheme host rest c end v w e =
    let (f, g) = host_part_lem (c ∷ host) rest end w e in
    (
      ap host_of (after_scheme_lem scheme (host_then c host end rest) v) ∙ ap some f,
      rw (after_scheme_lem scheme (c ∷ host) v) (ap some g),
    )
