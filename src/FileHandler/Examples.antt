-- ===== src/FileHandler/Examples.antt =====
-- Tests and instances for `FileHandler`.
use distributed_math_arh.Prelude.{true, false, ◌≡◌, refl, [], ◌∷◌, some, string_eq}
use distributed_math_arh.Prelude.Dict.{lookup}
use distributed_math_arh.Outcome.{ok, undefined}
use distributed_math_arh.FileHandler.{
  FileHandler, out, join_path, stream_of, open_file, close_file, upsert, contains_file, output,
}
use distributed_math_arh.FileHandler.Names.{call, deletes, call-contains_file}
use distributed_math_arh.FileHandler.Streams.{
  open_in, open_file_reports, close_file_reports, upsert_opens, output_writes,
}

joined : join_path "logs" "a.txt" ≡ "logs/a.txt"
unfolding join_path
joined = refl

joined_absolute : join_path "logs" "/tmp/a.txt" ≡ "/tmp/a.txt"
unfolding join_path
joined_absolute = refl

abbrev logs : FileHandler
logs = record {
  parent_path = "logs";
  file_map = ("logs/a.txt", record { is_open = false; printed = "old" ∷ [] }) ∷ [];
}

deleted_file_is_gone : contains_file (call logs (deletes "a.txt")) "a.txt" ≡ false
unfolding join_path lookup contains_file
deleted_file_is_gone = call-contains_file logs (deletes "a.txt") "a.txt"

opening_reports :
    ((open_file logs "a.txt" out false).1 ≡ true)
    × (open_in (stream_of (open_file logs "a.txt" out false).0 "a.txt") ≡ false)
unfolding join_path lookup contains_file
opening_reports = open_file_reports logs "a.txt" out false

close_file_reports_example :
    ((close_file logs "a.txt").1 ≡ false)
    × (open_in (stream_of (close_file logs "a.txt").0 "a.txt") ≡ false)
unfolding join_path lookup
close_file_reports_example = close_file_reports logs "a.txt"

upsert_opens_example :
    ((upsert logs "b.txt" out true).1 ≡ true)
    × (stream_of (upsert logs "b.txt" out true).0 "b.txt"
        ≡ some (record { is_open = true; printed = [] }))
unfolding join_path lookup
upsert_opens_example = upsert_opens logs "b.txt" out true "b.txt"

output_writes_example :
    (f' : FileHandler) × (output true logs "a.txt" "hello" true ≡ ok f')
    × (stream_of f' "a.txt" ≡ some (record { is_open = true; printed = "hello" ∷ [] }))
unfolding join_path lookup contains_file
output_writes_example = output_writes logs "a.txt" "hello" true "a.txt" refl

-- A file that is not known: the null pointer that the map has just made is followed.
unknown_is_followed : output true logs "b.txt" "hello" true ≡ undefined
unfolding output join_path lookup contains_file
unknown_is_followed = refl
