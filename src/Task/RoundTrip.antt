-- ===== src/Task/RoundTrip.antt =====
-- A task that is published is the task that a worker reads.
use mathlib.Core.List.{append-nil, append_assoc}
use distributed_math_arh.Prelude.{
  String, Bool, true, ◌&&◌, ◌≡◌, refl, sym, ap, ◌∙◌, subst, [], ◌∷◌, ◌++◌, none, string_eq, Eq,
  if◌then◌else◌, arith, ltb,
}
use distributed_math_arh.Prelude.Dict.{is_some, Dict, lookup, insert, Distinct}
use distributed_math_arh.Outcome.{ok, throw, logic_error, ◌>>=◌}
use distributed_math_arh.Json.{
  Json, Fields, field, no_fields, set_field, member, field_of, as_unsigned,
}
use distributed_math_arh.Entities.{Reals, u32}
use distributed_math_arh.Enums.{fill}
use distributed_math_arh.Task.{JsonVariant, TestSolveParam}
use distributed_math_arh.Task.Json.{
  variant_to_json, json_to_variant, fill_fields, args_member, task_to_json, args_member, element,
  dict_of, members, read_args, task_of_json,
}

module _ {ℓ κ} {K : Type ℓ} {V : Type κ} ⦃e : Eq K⦄ where
  append-lookup :
      (m : Dict K V) (k : K) (v : V) (rows : Dict K V)
      → is_some (lookup k (m ++ (k, v) ∷ rows)) ≡ true
  unfolding lookup
  append-lookup [] k v rows = ground (arith, e.beq_iff k k)
  append-lookup ((j, w) ∷ m) k v rows = ground (arith, append-lookup m k v rows)

  -- A key that a list has once stands in no part of it twice.
  Distinct-prefix :
      (m : Dict K V) (k : K) (v : V) (rows : Dict K V)
      → Distinct (m ++ (k, v) ∷ rows)
      → insert k v m ≡ m ++ (k, v) ∷ []
  unfolding insert lookup
  Distinct-prefix [] k v rows d = refl
  Distinct-prefix ((j, w) ∷ m) k v rows d =
      ground (arith, e.beq_iff j k, append-lookup m k v rows, Distinct-prefix m k v rows d.1)

  fill-append : (m rows : Dict K V) → Distinct (m ++ rows) → fill m rows ≡ m ++ rows
  unfolding fill
  fill-append m [] d = sym (append-nil m)
  fill-append m ((k, v) ∷ rows) d =
      let whole = append_assoc m ((k, v) ∷ []) rows in
      rw (Distinct-prefix m k v rows d)
        (fill-append (m ++ (k, v) ∷ []) rows (subst Distinct (sym whole) d) ∙ whole)

module _ {F : Type 0} where
  abbrev json_args : Dict String (JsonVariant F) → Dict String (Json F)
  json_args [] = []
  json_args ((key, value) ∷ args) = (key, variant_to_json value) ∷ json_args args

  dict_of-set_field :
      (k : String) (v : Json F) (fs : Fields F)
      → dict_of (set_field k v fs) ≡ insert k v (dict_of fs)
  unfolding set_field insert
  dict_of-set_field k v no_fields = refl
  dict_of-set_field k v (field j w later) = ground (arith, dict_of-set_field k v later)

  dict_of-fill_fields :
      (fs : Fields F) (args : Dict String (JsonVariant F))
      → dict_of (fill_fields fs args) ≡ fill (dict_of fs) (json_args args)
  unfolding fill_fields fill
  dict_of-fill_fields fs [] = refl
  dict_of-fill_fields fs ((k, v) ∷ args) =
      dict_of-fill_fields (set_field k (variant_to_json v) fs) args
      ∙ ap (λ m. fill m (json_args args)) (dict_of-set_field k (variant_to_json v) fs)

  lookup-json_args :
      (k : String) (args : Dict String (JsonVariant F))
      → lookup k args ≡ none
      → lookup k (json_args args) ≡ none
  unfolding lookup
  lookup-json_args k [] absent = refl
  lookup-json_args k ((j, v) ∷ args) absent = ground (arith, lookup-json_args k args)

  json_args-Distinct :
      (args : Dict String (JsonVariant F)) → Distinct args → Distinct (json_args args)
  json_args-Distinct [] d = tt
  json_args-Distinct ((k, v) ∷ args) d = (lookup-json_args k args d.0, json_args-Distinct args d.1)

  json_to_variant-variant_to_json : (v : JsonVariant F) → json_to_variant (variant_to_json v) ≡ ok v
  unfolding json_to_variant variant_to_json
  json_to_variant-variant_to_json JsonVariant.null = refl
  json_to_variant-variant_to_json (JsonVariant.boolean b) = refl
  json_to_variant-variant_to_json (JsonVariant.int64 n) = refl
  json_to_variant-variant_to_json (JsonVariant.uint64 n) = refl
  json_to_variant-variant_to_json (JsonVariant.real x) = refl
  json_to_variant-variant_to_json (JsonVariant.text s) = refl

  read_args-json_args :
      (m args : Dict String (JsonVariant F)) → read_args m (json_args args) ≡ ok (fill m args)
  unfolding read_args fill
  read_args-json_args m [] = refl
  read_args-json_args m ((k, v) ∷ args) =
      rw (json_to_variant-variant_to_json v) (read_args-json_args (insert k v m) args)

  -- The members of the arguments' object are the arguments, in their order.
  read-members :
      (args : Dict String (JsonVariant F))
      → Distinct args
      → read_args [] (dict_of (fill_fields no_fields args)) ≡ ok args
  read-members args d =
      let fields =
        dict_of-fill_fields no_fields args
        ∙ fill-append [] (json_args args) (json_args-Distinct args d) in
      ap (read_args []) fields ∙ read_args-json_args [] args ∙ ap ok (fill-append [] args d)

  -- Whether the numbers of a task fit the 32 bits that the constructor reads.
  abbrev pub fits_32 : TestSolveParam F → Bool
  fits_32 ts =
      ltb ts.experiment_id u32
      && (ltb ts.system_size u32 && (ltb ts.range_first u32 && ltb ts.range_second u32))

module _ {F : Type 0} (reals : Reals F) where
  members-args_member :
      (args : Dict String (JsonVariant F))
      → Distinct args
      → (members (field_of "args" (args_member args)) >>= (λ fields. read_args [] fields)) ≡ ok args
  unfolding members field_of read_args
  members-args_member [] d = refl
  members-args_member (arg ∷ args) d = read-members (arg ∷ args) d

  -- A task that is written as JSON and read from it is the same task if its experiment, its system
  -- size and both ends of its range are below 2^32, and is refused with a logic error otherwise.
  -- Its arguments have distinct names.
  pub task_of_json-task_to_json :
      (ts : TestSolveParam F)
      → Distinct ts.args
      → task_of_json reals (task_to_json ts) ≡ (if fits_32 ts then ok ts else throw logic_error)
  unfolding task_of_json task_to_json member field_of element as_unsigned
  task_of_json-task_to_json ts d = ground (arith, members-args_member ts.args d)
