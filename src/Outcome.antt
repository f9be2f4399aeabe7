-- ===== src/Outcome.antt =====
-- utilLib/include/common/errorHandling.h: the exceptions, and how a call of C++ code ends.
-- Exceptions carry their numeric and textual arguments; message formatting and traces are left out.
use distributed_math_arh.Prelude.{ℕ, String, ◌≡◌, refl, ap, Bool, true, false, Option, none, some}

pub data Severity : Type 0 where
  info warning error fatal : Severity

pub data Exception : Type 0 where
  invalid_option : String → Exception
  out_of_range : ℕ → ℕ → ℕ → Exception
  zero_size : String → Exception
  io_error : String → Exception
  mismatched_sizes : ℕ → ℕ → Exception
  row_division_error : ℕ → ℕ → Exception
  http_error : ℕ → String → Exception
  curl_error : String → Exception
  sql_error : String → String → String → Exception
  already_connected : String → String → Exception
  broken_connection : String → String → Exception
  scanning_error : String → Exception
  my_exception : String → Exception
  -- the standard library's own
  logic_error : Exception
  runtime_error : String → Exception
  invalid_argument : String → Exception

-- `undefined` is undefined behaviour: null dereference, index out of bounds, division by zero.
pub data Outcome {ℓ} (A : Type ℓ) : Type ℓ where
  ok : A → Outcome A
  throw : Exception → Outcome A
  undefined : Outcome A

infixl 5 ◌>>=◌ ◌>>◌
abbrev pub ◌>>=◌ {ℓ κ} : {A : Type ℓ} → {B : Type κ} → Outcome A → (A → Outcome B) → Outcome B
undefined >>= k = undefined
throw x >>= k = throw x
ok a >>= k = k a

abbrev pub ◌>>◌ {ℓ} : {B : Type ℓ} → Outcome (Unit {0}) → Outcome B → Outcome B
m >> k = m >>= λ _. k

-- A test that the code makes before it goes on.
abbrev pub unless : Bool → Exception → Outcome (Unit {0})
unless true x = throw x
unless false x = ok tt

-- A use of what an empty pointer or a missing element does not give.
abbrev pub deref {ℓ} : {A : Type ℓ} → Option A → Outcome A
deref none = undefined
deref (some a) = ok a

pub >>=-eq-ok {ℓ κ} :
    {A : Type ℓ} {B : Type κ} (m : Outcome A) (f : A → Outcome B) {b : B}
    → (m >>= f) ≡ ok b
    → (a : A) × (m ≡ ok a) × (f a ≡ ok b)
>>=-eq-ok undefined k done = cc
>>=-eq-ok (throw x) k done = cc
>>=-eq-ok (ok a) k done = (a, refl, done)

pub bind-ok :
    {A B : Type 0} {m : Outcome A} {a : A} (f : A → Outcome B) → m ≡ ok a → (m >>= f) ≡ f a
bind-ok f h = ap (λ m. m >>= f) h
