-- ===== src/Enums/Maps.antt =====
-- The two maps of a table are inverse to each other.
use distributed_math_arh.Prelude.{
  String, List, [], ◌∷◌, Option, none, some, Eq, ◌≡◌, refl, string_eq, arith,
}
use distributed_math_arh.Prelude.Dict.{Dict, lookup, insert, lookup-insert, Distinct}
use distributed_math_arh.Outcome.{ok, throw, invalid_option}
use distributed_math_arh.Enums.{
  Enum, enum_eq, same_enum_iff, fill, swapped, create_str_to_enum_map, create_enum_to_str_map,
  str_to_enum, enum_to_str,
}

abbrev or_else {ℓ} : {A : Type ℓ} → Option A → Option A → Option A
or_else none b = b
or_else (some a) b = some a

module _ {ℓ κ} {K : Type ℓ} {V : Type κ} ⦃e : Eq K⦄ where
  lookup-fill :
      (k : K) (m : Dict K V) (rows : List (K × V))
      → Distinct rows
      → lookup k (fill m rows) ≡ or_else (lookup k rows) (lookup k m)
  unfolding fill lookup
  lookup-fill k m [] d = refl
  lookup-fill k m ((j, v) ∷ rows) d =
      ground (arith, lookup-fill k (insert j v m) rows d.1, lookup-insert j k v m, e.beq_iff j k)

module _ {E : Type 0} ⦃c : Enum E⦄ where
  lookup-swapped :
      (rows : List (E × String)) (e : E) (s : String)
      → Distinct (swapped rows)
      → lookup e rows ≡ some s
      → lookup s (swapped rows) ≡ some e
  unfolding lookup
  lookup-swapped [] e s d h = absurd cc
  lookup-swapped ((e', s') ∷ rows) e s d h =
      ground
        (arith, h, d, lookup-swapped rows e s d.1, same_enum_iff c e' e, string_eq.beq_iff s' s)

  -- In a table in which no value and no text stands twice, the text of a value is the one of its row,
  -- and this text is cast back to the value.
  pub str_to_enum-enum_to_str :
      (rows : List (E × String)) (e : E) (s : String)
      → Distinct rows
      → Distinct (swapped rows)
      → lookup e rows ≡ some s
      → (enum_to_str e (create_enum_to_str_map rows) ≡ ok s)
        × (str_to_enum s (create_str_to_enum_map rows) ≡ ok e)
  unfolding enum_to_str str_to_enum create_enum_to_str_map create_str_to_enum_map lookup
  str_to_enum-enum_to_str rows e s d d' h = ground (
    arith,
    lookup-fill e [] rows d,
    lookup-fill s [] (swapped rows) d',
    lookup-swapped rows e s d' h,
  )

  -- A text of no row is an invalid option.
  pub str_to_enum_unknown :
      (rows : List (E × String)) (s : String)
      → Distinct (swapped rows)
      → lookup s (swapped rows) ≡ none
      → str_to_enum s (create_str_to_enum_map rows) ≡ throw (invalid_option s)
  unfolding str_to_enum create_str_to_enum_map lookup
  str_to_enum_unknown rows s d h = ground (arith, lookup-fill s [] (swapped rows) d)

-- A type of enum values with its table: no value and no text stands twice, and every value has a row.
pub record Table (E : Type 0) ⦃c : Enum E⦄ : Type 0 where
  pub mappings : List (E × String)
  pub distinct : Distinct mappings
  pub distinct_texts : Distinct (swapped mappings)
  pub complete : (e : E) → (s : String) × (lookup e mappings ≡ some s)

-- Each value of an enum with a complete table without repetitions has a text, and the text is cast
-- back to the value.
pub table_inverse :
    {E : Type 0} ⦃c : Enum E⦄ (t : Table E) (e : E)
    → (s : String) × (enum_to_str e (create_enum_to_str_map t.mappings) ≡ ok s)
      × (str_to_enum s (create_str_to_enum_map t.mappings) ≡ ok e)
table_inverse t e =
    let (s, h) = t.complete e in
    let (f, g) = str_to_enum-enum_to_str t.mappings e s t.distinct t.distinct_texts h in (s, f, g)
