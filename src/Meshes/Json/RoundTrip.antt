-- ===== src/Meshes/Json/RoundTrip.antt =====
-- A mesh is read back from its JSON.
use distributed_math_arh.Prelude.{string_eq}
use distributed_math_arh.Outcome.{Outcome}
use distributed_math_arh.Numbers.{Numbers}
use distributed_math_arh.Json.{Json}
