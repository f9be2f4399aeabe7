-- ===== src/FileHandler/Streams.antt =====
-- What the methods of `FileHandler` do to its streams, and what they report.
use mathlib.Core.List.{append-nil}
use text.Mathlib.TextPositions.{eq_refl}
use distributed_math_arh.Prelude.{
  String, Bool, true, false, not, ◌||◌, ◌&&◌, ◌≡◌, refl, List, [], ◌∷◌, ◌++◌, Option, none, some,
  ◌==◌, string_eq, if◌then◌else◌, arith, Bool-cases, inl, inr,
}
use distributed_math_arh.Prelude.Dict.{insert, lookup-insert, is_some}
use distributed_math_arh.Outcome.{ok}
use distributed_math_arh.FileHandler.{
  FileHandler, OpenMode, out, app, kept, Stream, key_of, stream_of, put, opened, closed, open_found,
  close_found, or_closed, upserted, open_file, close_file, upsert, contains_file, print, print_to,
  output,
}

abbrev pub open_in : Option Stream → Bool
open_in none = false
open_in (some s) = s.is_open

abbrev pub printed_in : Option Stream → List String
printed_in none = []
printed_in (some s) = s.printed

module _ (f : FileHandler) (name : String) where
  stream_of-put : (s : Stream) → stream_of (put f name s) name ≡ some s
  stream_of-put s = simp (lookup-insert, eq_refl)

  open_found_lem :
      (o : Option Stream) (mode : OpenMode) (success : Bool)
      → stream_of f name ≡ o
      → ((open_found f name o mode success).1 ≡ is_some o && not (open_in o))
        × (open_in (stream_of (open_found f name o mode success).0 name)
            ≡ (open_in o || is_some o && success))
  open_found_lem none mode success h = ground (arith, h)
  open_found_lem (some s) mode success h = ground (arith, h, stream_of-put (opened s mode success))

  -- `Open` reports true exactly for a known file whose stream was not open, even if the system does not
  -- let the file be opened; the stream is open afterwards if it was, or the file is known and the
  -- system let it be opened.
  pub open_file_reports :
      (mode : OpenMode) (success : Bool)
      → ((open_file f name mode success).1
          ≡ contains_file f name && not (open_in (stream_of f name)))
        × (open_in (stream_of (open_file f name mode success).0 name)
            ≡ (open_in (stream_of f name) || contains_file f name && success))
  unfolding open_file contains_file
  open_file_reports mode success = open_found_lem (stream_of f name) mode success refl

  close_found_lem :
      (o : Option Stream)
      → stream_of f name ≡ o
      → ((close_found f name o).1 ≡ open_in o)
        × (open_in (stream_of (close_found f name o).0 name) ≡ false)
  close_found_lem none h = ground (arith, h)
  close_found_lem (some s) h = ground (arith, h, stream_of-put (closed s))

  -- `Close` reports whether the file's stream was open, and it is not open afterwards.
  pub close_file_reports :
      ((close_file f name).1 ≡ open_in (stream_of f name))
      × (open_in (stream_of (close_file f name).0 name) ≡ false)
  unfolding close_file
  close_file_reports = close_found_lem (stream_of f name) refl

  -- What the file holds after an opening that is tried only if the stream is not open.
  abbrev pub printed_after : Option Stream → OpenMode → Bool → List String
  printed_after none mode success = []
  printed_after (some s) mode success =
      if s.is_open then s.printed else if success then kept mode s.printed else s.printed

  abbrev opens_with : Bool → Bool
  opens_with success = open_in (stream_of f name) || success

  upserted_lem :
      (o : Option Stream) (mode : OpenMode) (success : Bool)
      → upserted (or_closed o) mode success
        ≡ record { is_open = open_in o || success; printed = printed_after o mode success }
  upserted_lem none out true = refl
  upserted_lem none app true = refl
  upserted_lem none mode false = refl
  upserted_lem (some s) mode success = ground arith

  -- `Upsert` reports whether the file's stream is open afterwards, which it is if it was open before or
  -- the system lets the file be opened, which in the mode `out` empties it; the streams of other paths
  -- are as they were.
  pub upsert_opens :
      (mode : OpenMode) (success : Bool) (other : String)
      → ((upsert f name mode success).1 ≡ (open_in (stream_of f name) || success))
        × (stream_of (upsert f name mode success).0 other ≡ (
            if key_of f name == key_of f other
            then some (record {
              is_open = open_in (stream_of f name) || success;
              printed = printed_after (stream_of f name) mode success;
            })
            else stream_of f other))
  unfolding upsert
  upsert_opens mode success other = rw (upserted_lem (stream_of f name) mode success) (
    refl,
    lookup-insert (key_of f name) (key_of f other)
        (record {
          is_open = opens_with success;
          printed = printed_after (stream_of f name) mode success;
        })
        f.file_map,
  )

  abbrev add_text : Stream → String → Stream
  add_text s text = record s { printed = s.printed ++ (if s.is_open then text ∷ [] else []) }

  print_lem : (s : Stream) (text : String) → print s text ≡ add_text s text
  unfolding print
  print_lem s text = ground (arith, append-nil s.printed)

  stream_of-put_twice :
      (s t : Stream) (other : String)
      → stream_of (put (put f name s) name t) other
        ≡ (if key_of f name == key_of f other then some t else stream_of f other)
  stream_of-put_twice s t other = ground (
    arith,
    lookup-insert (key_of f name) (key_of f other) s f.file_map,
    lookup-insert (key_of f name) (key_of f other) t (insert (key_of f name) s f.file_map),
  )

  print_to_lem :
      (s : Stream) (text : String)
      → print_to (put f name s) name text ≡ ok (put (put f name s) name (add_text s text))
  unfolding print_to
  print_to_lem s text = rw (stream_of-put s, print_lem s text) refl

  output_lem :
      (s : Stream) (text other : String)
      → (f' : FileHandler) × ((if not s.is_open
            then ok (put f name s)
            else print_to (put f name s) name text)
          ≡ ok f')
        × (stream_of f' other ≡ (
            if key_of f name == key_of f other then some (add_text s text) else stream_of f other))
  output_lem s text other = elim (Bool-cases s.is_open) [
    | inl e ↦ (
      put (put f name s) name (add_text s text),
      ground (arith, print_to_lem s text),
      stream_of-put_twice s (add_text s text) other,
    )
    | inr e ↦ (
      put f name s,
      ground arith,
      ground (
        arith,
        append-nil s.printed,
        lookup-insert (key_of f name) (key_of f other) s f.file_map,
      ),
    )
  ]

  abbrev pub printed_before : Option Stream → Bool → List String
  printed_before o success =
      if open_in o then printed_in o else if success then [] else printed_in o

  printed_out :
      (o : Option Stream) (success : Bool) → printed_after o out success ≡ printed_before o success
  printed_out none true = refl
  printed_out none false = refl
  printed_out (some s) success = refl

  -- With checks, output to a known file comes to an end. If its stream was open the text is added to
  -- what was printed to the file; if it was not, and the system lets it be opened, the file is emptied
  -- and then holds only the text; otherwise the text is lost. The streams of other paths are as they
  -- were.
  pub output_writes :
      (text : String) (success : Bool) (other : String)
      → contains_file f name ≡ true
      → (f' : FileHandler) × (output true f name text success ≡ ok f')
        × (stream_of f' other ≡ (
            if key_of f name == key_of f other
            then some (record {
              is_open = open_in (stream_of f name) || success;
              printed =
                  (if open_in (stream_of f name)
                    then printed_in (stream_of f name)
                    else if success
                    then []
                    else printed_in (stream_of f name))
                  ++ (if open_in (stream_of f name) || success then text ∷ [] else []);
            })
            else stream_of f other))
  unfolding output upsert
  output_writes text success other known =
      rw
        (known, upserted_lem (stream_of f name) out success, printed_out (stream_of f name) success)
        (output_lem
          (record {
            is_open = opens_with success;
            printed = printed_before (stream_of f name) success;
          })
          text other)
