-- ===== src/Enums/Tables.antt =====
-- The enums and tables of computationalLib/include/network_shared/daoClasses.h.
use distributed_math_arh.Prelude.{ℕ, String, List, [], ◌∷◌, some, ◌≡◌, refl, get_or, string_eq}
use distributed_math_arh.Prelude.Dict.{lookup}
use distributed_math_arh.Enums.{Enum, enum_eq}
use distributed_math_arh.Enums.Maps.{Table}

-- UserRole and kUserRoleMappings
pub data UserRole : Type 0 where
  plain_user administrator : UserRole

abbrev pub user_role_rank : UserRole → ℕ
user_role_rank plain_user = 0
user_role_rank administrator = 1

abbrev pub user_role_at : ℕ → UserRole
user_role_at n = get_or (plain_user ∷ administrator ∷ []) n plain_user

pub user_role_at-rank : (e : UserRole) → user_role_at (user_role_rank e) ≡ e
user_role_at-rank plain_user = refl
user_role_at-rank administrator = refl

instance abbrev pub user_role_enum : Enum UserRole
user_role_enum = record { rank = user_role_rank; at = user_role_at; at-rank = user_role_at-rank }

abbrev pub user_role_mappings : List (UserRole × String)
user_role_mappings = (plain_user, "user") ∷ (administrator, "admin") ∷ []

pub user_role_complete : (e : UserRole) → (s : String) × (lookup e user_role_mappings ≡ some s)
unfolding lookup
user_role_complete plain_user = ("user", refl)
user_role_complete administrator = ("admin", refl)

instance abbrev pub user_role_table : Table UserRole
unfolding lookup
user_role_table = record {
  mappings = user_role_mappings;
  distinct = (refl, (refl, tt));
  distinct_texts = (refl, (refl, tt));
  complete = user_role_complete;
}

-- ExperimentStatus and kExpStatusMappings
pub data ExperimentStatus : Type 0 where
  exp_created exp_queued exp_running exp_succeeded exp_error exp_arhived : ExperimentStatus

abbrev pub exp_status_rank : ExperimentStatus → ℕ
exp_status_rank exp_created = 0
exp_status_rank exp_queued = 1
exp_status_rank exp_running = 2
exp_status_rank exp_succeeded = 3
exp_status_rank exp_error = 4
exp_status_rank exp_arhived = 5

abbrev pub exp_status_at : ℕ → ExperimentStatus
exp_status_at n =
    get_or (exp_created ∷ exp_queued ∷ exp_running ∷ exp_succeeded ∷ exp_error ∷ exp_arhived ∷ []) n
      exp_created

pub exp_status_at-rank : (e : ExperimentStatus) → exp_status_at (exp_status_rank e) ≡ e
exp_status_at-rank exp_created = refl
exp_status_at-rank exp_queued = refl
exp_status_at-rank exp_running = refl
exp_status_at-rank exp_succeeded = refl
exp_status_at-rank exp_error = refl
exp_status_at-rank exp_arhived = refl

instance abbrev pub exp_status_enum : Enum ExperimentStatus
exp_status_enum = record {
  rank = exp_status_rank;
  at = exp_status_at;
  at-rank = exp_status_at-rank;
}

abbrev pub exp_status_mappings : List (ExperimentStatus × String)
exp_status_mappings =
    (exp_created, "created")
    ∷ (exp_queued, "queued")
    ∷ (exp_running, "running")
    ∷ (exp_succeeded, "succeeded")
    ∷ (exp_error, "error")
    ∷ (exp_arhived, "archived")
    ∷ []

pub exp_status_complete :
    (e : ExperimentStatus) → (s : String) × (lookup e exp_status_mappings ≡ some s)
unfolding lookup
exp_status_complete exp_created = ("created", refl)
exp_status_complete exp_queued = ("queued", refl)
exp_status_complete exp_running = ("running", refl)
exp_status_complete exp_succeeded = ("succeeded", refl)
exp_status_complete exp_error = ("error", refl)
exp_status_complete exp_arhived = ("archived", refl)

instance abbrev pub exp_status_table : Table ExperimentStatus
unfolding lookup
exp_status_table = record {
  mappings = exp_status_mappings;
  distinct = (refl, (refl, (refl, (refl, (refl, (refl, tt))))));
  distinct_texts = (refl, (refl, (refl, (refl, (refl, (refl, tt))))));
  complete = exp_status_complete;
}

-- IterationStatus and kIterStatusMappings
pub data IterationStatus : Type 0 where
  iter_queued iter_running iter_succeeded iter_error : IterationStatus

abbrev pub iter_status_rank : IterationStatus → ℕ
iter_status_rank iter_queued = 0
iter_status_rank iter_running = 1
iter_status_rank iter_succeeded = 2
iter_status_rank iter_error = 3

abbrev pub iter_status_at : ℕ → IterationStatus
iter_status_at n =
    get_or (iter_queued ∷ iter_running ∷ iter_succeeded ∷ iter_error ∷ []) n iter_queued

pub iter_status_at-rank : (e : IterationStatus) → iter_status_at (iter_status_rank e) ≡ e
iter_status_at-rank iter_queued = refl
iter_status_at-rank iter_running = refl
iter_status_at-rank iter_succeeded = refl
iter_status_at-rank iter_error = refl

instance abbrev pub iter_status_enum : Enum IterationStatus
iter_status_enum = record {
  rank = iter_status_rank;
  at = iter_status_at;
  at-rank = iter_status_at-rank;
}

abbrev pub iter_status_mappings : List (IterationStatus × String)
iter_status_mappings =
    (iter_queued, "queued")
    ∷ (iter_running, "running")
    ∷ (iter_succeeded, "succeeded")
    ∷ (iter_error, "error")
    ∷ []

pub iter_status_complete :
    (e : IterationStatus) → (s : String) × (lookup e iter_status_mappings ≡ some s)
unfolding lookup
iter_status_complete iter_queued = ("queued", refl)
iter_status_complete iter_running = ("running", refl)
iter_status_complete iter_succeeded = ("succeeded", refl)
iter_status_complete iter_error = ("error", refl)

instance abbrev pub iter_status_table : Table IterationStatus
unfolding lookup
iter_status_table = record {
  mappings = iter_status_mappings;
  distinct = (refl, (refl, (refl, (refl, tt))));
  distinct_texts = (refl, (refl, (refl, (refl, tt))));
  complete = iter_status_complete;
}

-- IterationType and kIterTypeMappings
pub data IterationType : Type 0 where
  generate solve mesh : IterationType

abbrev pub iter_type_rank : IterationType → ℕ
iter_type_rank generate = 0
iter_type_rank solve = 1
iter_type_rank mesh = 2

abbrev pub iter_type_at : ℕ → IterationType
iter_type_at n = get_or (generate ∷ solve ∷ mesh ∷ []) n generate

pub iter_type_at-rank : (e : IterationType) → iter_type_at (iter_type_rank e) ≡ e
iter_type_at-rank generate = refl
iter_type_at-rank solve = refl
iter_type_at-rank mesh = refl

instance abbrev pub iter_type_enum : Enum IterationType
iter_type_enum = record { rank = iter_type_rank; at = iter_type_at; at-rank = iter_type_at-rank }

abbrev pub iter_type_mappings : List (IterationType × String)
iter_type_mappings = (generate, "generate") ∷ (solve, "solve") ∷ (mesh, "mesh") ∷ []

pub iter_type_complete : (e : IterationType) → (s : String) × (lookup e iter_type_mappings ≡ some s)
unfolding lookup
iter_type_complete generate = ("generate", refl)
iter_type_complete solve = ("solve", refl)
iter_type_complete mesh = ("mesh", refl)

instance abbrev pub iter_type_table : Table IterationType
unfolding lookup
iter_type_table = record {
  mappings = iter_type_mappings;
  distinct = (refl, (refl, (refl, tt)));
  distinct_texts = (refl, (refl, (refl, tt)));
  complete = iter_type_complete;
}

-- NodeStatus and kNodeStMappings
pub data DbNodeStatus : Type 0 where
  node_active node_busy node_inactive node_error : DbNodeStatus

abbrev pub node_st_rank : DbNodeStatus → ℕ
node_st_rank node_active = 0
node_st_rank node_busy = 1
node_st_rank node_inactive = 2
node_st_rank node_error = 3

abbrev pub node_st_at : ℕ → DbNodeStatus
node_st_at n = get_or (node_active ∷ node_busy ∷ node_inactive ∷ node_error ∷ []) n node_active

pub node_st_at-rank : (e : DbNodeStatus) → node_st_at (node_st_rank e) ≡ e
node_st_at-rank node_active = refl
node_st_at-rank node_busy = refl
node_st_at-rank node_inactive = refl
node_st_at-rank node_error = refl

instance abbrev pub node_st_enum : Enum DbNodeStatus
node_st_enum = record { rank = node_st_rank; at = node_st_at; at-rank = node_st_at-rank }

abbrev pub node_st_mappings : List (DbNodeStatus × String)
node_st_mappings =
    (node_active, "active")
    ∷ (node_busy, "busy")
    ∷ (node_inactive, "inactive")
    ∷ (node_error, "error")
    ∷ []

pub node_st_complete : (e : DbNodeStatus) → (s : String) × (lookup e node_st_mappings ≡ some s)
unfolding lookup
node_st_complete node_active = ("active", refl)
node_st_complete node_busy = ("busy", refl)
node_st_complete node_inactive = ("inactive", refl)
node_st_complete node_error = ("error", refl)

instance abbrev pub node_st_table : Table DbNodeStatus
unfolding lookup
node_st_table = record {
  mappings = node_st_mappings;
  distinct = (refl, (refl, (refl, (refl, tt))));
  distinct_texts = (refl, (refl, (refl, (refl, tt))));
  complete = node_st_complete;
}
