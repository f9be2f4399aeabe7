-- ===== src/FileHandler/Names.antt =====
-- Which files a `FileHandler` knows, and how its methods change that.
use distributed_math_arh.Prelude.{
  String, Bool, not, ◌||◌, ◌&&◌, ◌≡◌, refl, [], ◌∷◌, Option, none, some, ◌==◌, string_eq, arith,
}
use distributed_math_arh.Prelude.Dict.{Dict, lookup, contains, lookup-insert, lookup-erase}
use distributed_math_arh.FileHandler.{
  FileHandler, OpenMode, Stream, key_of, stream_of, put, opened, closed, open_found, close_found,
  or_closed, upserted, close_all, open_file, close_file, delete_file, upsert, close_files,
  contains_file,
}

-- A call of a method that changes the map.
pub data Call : Type 0 where
  opens upserts : String → OpenMode → Bool → Call
  closes deletes : String → Call
  closes_all : Call

abbrev pub call : FileHandler → Call → FileHandler
call f (opens name mode success) = (open_file f name mode success).0
call f (upserts name mode success) = (upsert f name mode success).0
call f (closes name) = (close_file f name).0
call f (deletes name) = (delete_file f name).0
call f closes_all = close_files f

lookup-close_all :
    (key : String) (m : Dict String Stream) → contains key (close_all m) ≡ contains key m
unfolding lookup
lookup-close_all key [] = refl
lookup-close_all key ((k, s) ∷ m) = ground (arith, lookup-close_all key m)

contains-put_known :
    (f : FileHandler) (name other : String) (old new : Stream)
    → stream_of f name ≡ some old
    → contains (key_of f other) (put f name new).file_map ≡ contains_file f other
unfolding contains_file
contains-put_known f name other old new h = ground (
  arith,
  string_eq.beq_iff (key_of f name) (key_of f other),
  lookup-insert (key_of f name) (key_of f other) new f.file_map,
)

contains-open_found :
    (f : FileHandler) (name other : String) (mode : OpenMode) (success : Bool) (o : Option Stream)
    → stream_of f name ≡ o
    → contains_file (open_found f name o mode success).0 other ≡ contains_file f other
unfolding contains_file
contains-open_found f name other mode success none h = refl
contains-open_found f name other mode success (some s) h =
    ground (arith, contains-put_known f name other s (opened s mode success) h)

contains-close_found :
    (f : FileHandler) (name other : String) (o : Option Stream)
    → stream_of f name ≡ o
    → contains_file (close_found f name o).0 other ≡ contains_file f other
unfolding contains_file
contains-close_found f name other none h = refl
contains-close_found f name other (some s) h =
    ground (arith, contains-put_known f name other s (closed s) h)

-- What the handler knows after a call: an upsert adds its file, a deletion takes its file away, and
-- nothing else changes which files are known.
abbrev pub known_after : FileHandler → Call → String → Bool
known_after f (upserts name mode success) other =
    key_of f name == key_of f other || contains_file f other
known_after f (deletes name) other = not (key_of f name == key_of f other) && contains_file f other
known_after f _ other = contains_file f other

-- A file is known to the handler after a call exactly if it was known before, unless the call is an
-- upsert of a name with the same path, after which it is known, or a deletion of one, after which it
-- is not.
pub call-contains_file :
    (f : FileHandler) (c : Call) (other : String)
    → contains_file (call f c) other ≡ known_after f c other
unfolding open_file close_file delete_file upsert close_files contains_file
call-contains_file f (opens name mode success) other =
    contains-open_found f name other mode success (stream_of f name) refl
call-contains_file f (upserts name mode success) other = ground (
  arith,
  lookup-insert (key_of f name) (key_of f other)
      (upserted (or_closed (stream_of f name)) mode success) f.file_map,
)
call-contains_file f (closes name) other = contains-close_found f name other (stream_of f name) refl
call-contains_file f (deletes name) other = ground (
  arith,
  string_eq.beq_iff (key_of f name) (key_of f other),
  lookup-erase (key_of f name) (key_of f other) f.file_map,
)
call-contains_file f closes_all other = lookup-close_all (key_of f other) f.file_map
