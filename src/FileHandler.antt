-- ===== src/FileHandler.antt =====
-- utilLib/include/testingUtils/FileHandler.h and utilLib/lib/testingUtils/FileHandler.cpp: the class
-- that keeps output streams by name. Whether the system lets a file be opened is an argument of the
-- methods that open one.
pub mod Names
pub mod Streams
pub mod Examples
use Prim.Native.String.{◌++◌ as ◌<>◌}
use text.Mathlib.Text.{starts_with}
use distributed_math_arh.Prelude.{
  String, Bool, true, false, not, ◌||◌, List, [], ◌∷◌, ◌++◌, Option, none, some, ◌==◌, string_eq,
  if◌then◌else◌,
}
use distributed_math_arh.Prelude.Dict.{Dict, lookup, contains, insert, erase}
use distributed_math_arh.Outcome.{Outcome, ok, deref, ◌>>=◌}

-- std::ios_base::out, which truncates the file that it opens, and std::ios_base::app.
pub data OpenMode : Type 0 where
  out app : OpenMode

-- What an opening in a mode leaves of the file.
abbrev pub kept : OpenMode → List String → List String
kept out printed = []
kept app printed = printed

-- std::ofstream: what was printed to it and is still in its file, oldest first.
pub record Stream : Type 0 where
  pub is_open : Bool
  pub printed : List String

abbrev pub closed_stream : Stream
closed_stream = record { is_open = false; printed = [] }

pub record FileHandler : Type 0 where
  pub parent_path : String
  pub file_map : Dict String Stream

ends_in_slash : String → Bool
ends_in_slash String.[] = false
ends_in_slash (String.◌∷◌ c String.[]) = String.◌∷◌ c String.[] == "/"
ends_in_slash (String.◌∷◌ c (String.◌∷◌ d s)) = ends_in_slash (String.◌∷◌ d s)

-- std::filesystem::path's operator/ on POSIX
unfoldable pub join_path : String → String → String
unfolding ends_in_slash
join_path parent filename =
    if starts_with filename "/"
    then filename
    else if parent == "" || ends_in_slash parent
    then parent <> filename
    else parent <> "/" <> filename

unfoldable pub new_handler : String → FileHandler
new_handler parent = record { parent_path = parent; file_map = [] }

-- The map's key of a file name, and the stream that the handler keeps for it.
abbrev pub key_of : FileHandler → String → String
key_of f filename = join_path f.parent_path filename

abbrev pub stream_of : FileHandler → String → Option Stream
stream_of f filename = lookup (key_of f filename) f.file_map

abbrev pub put : FileHandler → String → Stream → FileHandler
put f filename stream = record f { file_map = insert (key_of f filename) stream f.file_map }

-- stream->open(path, mode), on a stream that is not open
abbrev pub opened : Stream → OpenMode → Bool → Stream
opened stream mode success =
    if success
    then record { is_open = true; printed = kept mode stream.printed }
    else record stream { is_open = false }

abbrev pub closed : Stream → Stream
closed stream = record stream { is_open = false }

abbrev pub open_found : FileHandler → String → Option Stream → OpenMode → Bool → FileHandler × Bool
open_found f filename none mode success = (f, false)
open_found f filename (some stream) mode success =
    if not stream.is_open then (put f filename (opened stream mode success), true) else (f, false)

unfoldable pub open_file : FileHandler → String → OpenMode → Bool → FileHandler × Bool
open_file f filename mode success = open_found f filename (stream_of f filename) mode success

abbrev pub close_found : FileHandler → String → Option Stream → FileHandler × Bool
close_found f filename none = (f, false)
close_found f filename (some stream) =
    if stream.is_open then (put f filename (closed stream), true) else (f, false)

unfoldable pub close_file : FileHandler → String → FileHandler × Bool
close_file f filename = close_found f filename (stream_of f filename)

unfoldable pub delete_file : FileHandler → String → FileHandler × Bool
delete_file f filename =
    if contains (key_of f filename) f.file_map
    then (record f { file_map = erase (key_of f filename) f.file_map }, true)
    else (f, false)

-- file_map_[file_path], where a new entry is given an unopened stream before
abbrev pub or_closed : Option Stream → Stream
or_closed none = closed_stream
or_closed (some stream) = stream

abbrev pub upserted : Stream → OpenMode → Bool → Stream
upserted stream mode success = if not stream.is_open then opened stream mode success else stream

unfoldable pub upsert : FileHandler → String → OpenMode → Bool → FileHandler × Bool
upsert f filename mode success =
    let stream = upserted (or_closed (stream_of f filename)) mode success in
    (put f filename stream, stream.is_open)

abbrev pub close_all : Dict String Stream → Dict String Stream
close_all [] = []
close_all ((k, stream) ∷ m) = (k, closed stream) ∷ close_all m

unfoldable pub close_files : FileHandler → FileHandler
close_files f = record f { file_map = close_all f.file_map }

unfoldable pub contains_file : FileHandler → String → Bool
contains_file f filename = contains (key_of f filename) f.file_map

-- What is inserted into a stream that is not open is lost.
unfoldable pub print : Stream → String → Stream
print stream text =
    if stream.is_open then record stream { printed = stream.printed ++ text ∷ [] } else stream

-- The pointer of a file that is not in the map is null, and it is followed.
unfoldable pub print_to : FileHandler → String → String → Outcome FileHandler
unfolding print
print_to f filename text = do
  stream ← deref (stream_of f filename)
  ok (put f filename (print stream text))

-- contains(file_path) || file_map_[file_path]->is_open(), where the map makes a null pointer for a file
-- that is not in it
abbrev pub enters : FileHandler → String → Outcome Bool
enters f filename =
    if contains_file f filename
    then ok true
    else (do stream ← deref (stream_of f filename); ok stream.is_open)

abbrev pub checked : FileHandler → String → String → Bool → Bool → Outcome FileHandler
checked f filename text success true =
    let (f', res) = upsert f filename out success in
    if not res then ok f' else print_to f' filename text
checked f filename text success false = print_to f filename text

unfoldable pub output : Bool → FileHandler → String → String → Bool → Outcome FileHandler
output checks f filename text success =
    if checks
    then (enters f filename >>= λ known. checked f filename text success known)
    else print_to f filename text
