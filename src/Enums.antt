-- ===== src/Enums.antt =====
-- utilLib/include/common/enumUtils.h: tables of enum values and their texts, and the two maps that are
-- made of a table. The tables are those of daoClasses.h and networkTypes.h in
-- computationalLib/include/network_shared.
pub mod Maps
pub mod Tables
pub mod Network
pub mod Examples
use distributed_math_arh.Prelude.{
  ℕ, String, Bool, true, List, [], ◌∷◌, Option, none, some, Eq, string_eq, nat_beq, nat_beq_iff,
  ◌≡◌, ◌↔◌, sym, ap, ◌∙◌, ◌==◌,
}
use distributed_math_arh.Prelude.Dict.{Dict, lookup, insert}
use distributed_math_arh.Outcome.{Outcome, ok, throw, undefined, invalid_option}

-- An enum class: the number of a value, and the value of a number.
pub record Enum (E : Type 0) : Type 0 where
  pub rank : E → ℕ
  pub at : ℕ → E
  pub at-rank : (e : E) → at (rank e) ≡ e

abbrev pub same_enum : {E : Type 0} → Enum E → E → E → Bool
same_enum c a b = nat_beq (c.rank a) (c.rank b)

pub same_enum_iff : {E : Type 0} (c : Enum E) (a b : E) → (same_enum c a b ≡ true) ↔ (a ≡ b)
same_enum_iff c a b = (
  λ h. sym (c.at-rank a) ∙ ap c.at ((nat_beq_iff (c.rank a) (c.rank b)).0 h) ∙ c.at-rank b,
  λ h. (nat_beq_iff (c.rank a) (c.rank b)).1 (ap c.rank h),
)

instance abbrev pub enum_eq : {E : Type 0} ⦃c : Enum E⦄ → Eq E
enum_eq ⦃c⦄ = record { beq = same_enum c; beq_iff = same_enum_iff c }

-- map[key] = value, for each row of the table in turn
unfoldable pub fill {ℓ κ} :
    {K : Type ℓ} {V : Type κ} ⦃e : Eq K⦄ → Dict K V → List (K × V) → Dict K V
fill m [] = m
fill m ((k, v) ∷ rows) = fill (insert k v m) rows

abbrev pub swapped : {E : Type 0} → List (E × String) → List (String × E)
swapped [] = []
swapped ((e, s) ∷ rows) = (s, e) ∷ swapped rows

unfoldable pub create_str_to_enum_map : {E : Type 0} → List (E × String) → Dict String E
create_str_to_enum_map mappings = fill [] (swapped mappings)

unfoldable pub create_enum_to_str_map :
    {E : Type 0} ⦃c : Enum E⦄ → List (E × String) → Dict E String
create_enum_to_str_map ⦃c⦄ mappings = fill [] mappings

abbrev found_enum : {E : Type 0} → String → Option E → Outcome E
found_enum str none = throw (invalid_option str)
found_enum str (some e) = ok e

unfoldable pub str_to_enum : {E : Type 0} → String → Dict String E → Outcome E
str_to_enum str m = found_enum str (lookup str m)

abbrev found_text : Option String → Outcome String
found_text none = undefined
found_text (some s) = ok s

-- The end iterator is followed where the value has no row.
unfoldable pub enum_to_str : {E : Type 0} ⦃c : Enum E⦄ → E → Dict E String → Outcome String
enum_to_str ⦃c⦄ value m = found_text (lookup value m)
