-- ===== src/Enums/Network.antt =====
-- The enums and tables of computationalLib/include/network_shared/networkTypes.h, and of
-- sharedDeclarations.h and printUtils.h in utilLib/include/common.
use distributed_math_arh.Prelude.{ℕ, String, List, [], ◌∷◌, some, ◌≡◌, refl, get_or, string_eq}
use distributed_math_arh.Prelude.Dict.{lookup}
use distributed_math_arh.Enums.{Enum, enum_eq}
use distributed_math_arh.Enums.Maps.{Table}

-- HttpMethod and kHttpMethodMappings
pub data HttpMethod : Type 0 where
  get_method post_method put_method delete_method head_method options_method patch_method
        connect_method trace_method :
      HttpMethod

abbrev pub http_method_rank : HttpMethod → ℕ
http_method_rank get_method = 0
http_method_rank post_method = 1
http_method_rank put_method = 2
http_method_rank delete_method = 3
http_method_rank head_method = 4
http_method_rank options_method = 5
http_method_rank patch_method = 6
http_method_rank connect_method = 7
http_method_rank trace_method = 8

abbrev pub http_method_at : ℕ → HttpMethod
http_method_at n =
    get_or
      (get_method ∷ post_method ∷ put_method ∷ delete_method ∷ head_method ∷ options_method
        ∷ patch_method ∷ connect_method ∷ trace_method ∷ [])
      n get_method

pub http_method_at-rank : (e : HttpMethod) → http_method_at (http_method_rank e) ≡ e
http_method_at-rank get_method = refl
http_method_at-rank post_method = refl
http_method_at-rank put_method = refl
http_method_at-rank delete_method = refl
http_method_at-rank head_method = refl
http_method_at-rank options_method = refl
http_method_at-rank patch_method = refl
http_method_at-rank connect_method = refl
http_method_at-rank trace_method = refl

instance abbrev pub http_method_enum : Enum HttpMethod
http_method_enum = record {
  rank = http_method_rank;
  at = http_method_at;
  at-rank = http_method_at-rank;
}

abbrev pub http_method_mappings : List (HttpMethod × String)
http_method_mappings =
    (get_method, "GET")
    ∷ (post_method, "POST")
    ∷ (put_method, "PUT")
    ∷ (delete_method, "DELETE")
    ∷ (head_method, "HEAD")
    ∷ (options_method, "OPTIONS")
    ∷ (patch_method, "PATCH")
    ∷ (connect_method, "CONNECT")
    ∷ (trace_method, "TRACE")
    ∷ []

pub http_method_complete :
    (e : HttpMethod) → (s : String) × (lookup e http_method_mappings ≡ some s)
unfolding lookup
http_method_complete get_method = ("GET", refl)
http_method_complete post_method = ("POST", refl)
http_method_complete put_method = ("PUT", refl)
http_method_complete delete_method = ("DELETE", refl)
http_method_complete head_method = ("HEAD", refl)
http_method_complete options_method = ("OPTIONS", refl)
http_method_complete patch_method = ("PATCH", refl)
http_method_complete connect_method = ("CONNECT", refl)
http_method_complete trace_method = ("TRACE", refl)

instance abbrev pub http_method_table : Table HttpMethod
unfolding lookup
http_method_table = record {
  mappings = http_method_mappings;
  distinct = (refl, (refl, (refl, (refl, (refl, (refl, (refl, (refl, (refl, tt)))))))));
  distinct_texts = (refl, (refl, (refl, (refl, (refl, (refl, (refl, (refl, (refl, tt)))))))));
  complete = http_method_complete;
}

-- StateT and kStateTMappings
pub data StateT : Type 0 where
  new_state old_state openmp_new openmp_old print_state : StateT

abbrev pub state_t_rank : StateT → ℕ
state_t_rank new_state = 0
state_t_rank old_state = 1
state_t_rank openmp_new = 2
state_t_rank openmp_old = 3
state_t_rank print_state = 4

abbrev pub state_t_at : ℕ → StateT
state_t_at n =
    get_or (new_state ∷ old_state ∷ openmp_new ∷ openmp_old ∷ print_state ∷ []) n new_state

pub state_t_at-rank : (e : StateT) → state_t_at (state_t_rank e) ≡ e
state_t_at-rank new_state = refl
state_t_at-rank old_state = refl
state_t_at-rank openmp_new = refl
state_t_at-rank openmp_old = refl
state_t_at-rank print_state = refl

instance abbrev pub state_t_enum : Enum StateT
state_t_enum = record { rank = state_t_rank; at = state_t_at; at-rank = state_t_at-rank }

abbrev pub state_t_mappings : List (StateT × String)
state_t_mappings =
    (new_state, "new")
    ∷ (old_state, "old")
    ∷ (openmp_new, "openmp_new")
    ∷ (openmp_old, "openmp_old")
    ∷ (print_state, "printImpl")
    ∷ []

pub state_t_complete : (e : StateT) → (s : String) × (lookup e state_t_mappings ≡ some s)
unfolding lookup
state_t_complete new_state = ("new", refl)
state_t_complete old_state = ("old", refl)
state_t_complete openmp_new = ("openmp_new", refl)
state_t_complete openmp_old = ("openmp_old", refl)
state_t_complete print_state = ("printImpl", refl)

instance abbrev pub state_t_table : Table StateT
unfolding lookup
state_t_table = record {
  mappings = state_t_mappings;
  distinct = (refl, (refl, (refl, (refl, (refl, tt)))));
  distinct_texts = (refl, (refl, (refl, (refl, (refl, tt)))));
  complete = state_t_complete;
}

-- IoFormat and kIoFormatMappings
pub data IoFormat : Type 0 where
  serializable human_readable : IoFormat

abbrev pub io_format_rank : IoFormat → ℕ
io_format_rank serializable = 0
io_format_rank human_readable = 1

abbrev pub io_format_at : ℕ → IoFormat
io_format_at n = get_or (serializable ∷ human_readable ∷ []) n serializable

pub io_format_at-rank : (e : IoFormat) → io_format_at (io_format_rank e) ≡ e
io_format_at-rank serializable = refl
io_format_at-rank human_readable = refl

instance abbrev pub io_format_enum : Enum IoFormat
io_format_enum = record { rank = io_format_rank; at = io_format_at; at-rank = io_format_at-rank }

abbrev pub io_format_mappings : List (IoFormat × String)
io_format_mappings = (serializable, "Serializable") ∷ (human_readable, "HumanReadable") ∷ []

pub io_format_complete : (e : IoFormat) → (s : String) × (lookup e io_format_mappings ≡ some s)
unfolding lookup
io_format_complete serializable = ("Serializable", refl)
io_format_complete human_readable = ("HumanReadable", refl)

instance abbrev pub io_format_table : Table IoFormat
unfolding lookup
io_format_table = record {
  mappings = io_format_mappings;
  distinct = (refl, (refl, tt));
  distinct_texts = (refl, (refl, tt));
  complete = io_format_complete;
}
