-- ===== src/Sync/Stream.antt =====
-- crates/scenery-daemon/src/sync/sse_client.rs, stream_events and process_sse_line: the bytes of
-- the event stream cut into lines, and lines put together to events. `dispatch` stands for
-- `dispatch_event`: it takes the type, the data and the id of an event with the state `S` of the
-- daemon, and says whether the channel to the reconciler is closed.
pub mod Chunks
pub mod Events
use Prim.Native.Char.{Char, code}
use Prim.Native.String.{String, [], ◌∷◌, ◌++◌}
use mathlib.Core.List.{List}
use vectorhawkd.Base.{
  ℕ, Bool, true, false, Option, none, some, ◌==◌, eqb, if◌then◌else◌, Result, ok, err,
}
use vectorhawkd.Base.Texts.{trim_start, trim_end, strip_prefix}

pub data StreamEnd : Type 0 where
  eof watchdog channel_closed : StreamEnd

-- The fields of the event that is being read.
pub record Fields : Type 0 where
  pub event_type : String
  pub event_data : String
  pub event_id : Option String

abbrev pub no_fields : Fields
no_fields = record { event_type = ""; event_data = ""; event_id = none }

-- Where the loop stands: it goes on, it has returned an end, or it has returned an error.
pub data Flow (E A S : Type 0) : Type 0 where
  running : A → S → Flow E A S
  ended : StreamEnd → S → Flow E A S
  failed : E → Flow E A S

abbrev pub and_then : {E A B S : Type 0} → Flow E A S → (A → S → Flow E B S) → Flow E B S
and_then (running a s) f = f a s
and_then (ended e s) f = ended e s
and_then (failed e) f = failed e

abbrev pub is_newline : Char → Bool
is_newline c = eqb (code c) 10

abbrev pub is_return : Char → Bool
is_return c = eqb (code c) 13

-- The complete lines of a text and what stands behind the last newline.
abbrev pub push_char : Char → List String × String → List String × String
push_char c (List.[], rest) = (List.[], c ∷ rest)
push_char c (List.◌∷◌ line lines, rest) = (List.◌∷◌ (c ∷ line) lines, rest)

unfoldable pub take_lines : String → List String × String
take_lines [] = (List.[], "")
take_lines (c ∷ s) =
    let (lines, rest) = take_lines s in
    if is_newline c then (List.◌∷◌ "" lines, rest) else push_char c (lines, rest)

abbrev pub add_data : String → String → String
add_data so_far value = if so_far == "" then value else so_far ++ ("\n" ++ value)

-- What the select of the loop wakes up for.
pub data Wake (E : Type 0) : Type 0 where
  chunk : (bytes : List ℕ) → Wake E
  read_error : E → Wake E
  timer : Wake E

-- `line.starts_with(':')`
abbrev pub is_comment : String → Bool
is_comment [] = false
is_comment (c ∷ s) = eqb (code c) b':'

module _ (is_white : Char → Bool) where
  -- The fields after a line that is neither blank nor a comment.
  unfoldable pub set_field : String → Fields → Fields
  unfolding strip_prefix trim_start
  set_field line f = elim (strip_prefix line "event:") [
    | some value ↦ record f { event_type = trim_start is_white value }
    | none ↦ elim (strip_prefix line "data:") [
      | some value ↦ record f { event_data = add_data (f.event_data) (trim_start is_white value) }
      | none ↦ elim (strip_prefix line "id:") [
        | some value ↦ record f { event_id = some (trim_start is_white value) }
        | none ↦ f
      ]
    ]
  ]

module _ {E S : Type 0} (is_white : Char → Bool)
    (dispatch : String → String → Option String → S → Result E (S × Bool)) where
  abbrev pub dispatched : Result E (S × Bool) → Flow E Fields S
  dispatched (err e) = failed e
  dispatched (ok (s, true)) = ended channel_closed s
  dispatched (ok (s, false)) = running no_fields s

  -- A blank line: the event is dispatched unless it has no data.
  abbrev pub end_event : Fields → S → Flow E Fields S
  end_event f s =
      if f.event_data == ""
      then running no_fields s
      else dispatched (dispatch (f.event_type) (f.event_data) (f.event_id) s)

  unfoldable pub process_sse_line : String → Fields → S → Flow E Fields S
  unfolding set_field
  process_sse_line line f s =
      if line == ""
      then end_event f s
      else if is_comment line
      then running f s
      else running (set_field is_white line f) s

  unfoldable pub process_lines : List String → Fields → S → Flow E Fields S
  unfolding process_sse_line trim_end
  process_lines List.[] f s = running f s
  process_lines (List.◌∷◌ line lines) f s =
      and_then (process_sse_line (trim_end is_return line) f s) (process_lines lines)

  -- One chunk, as a text: the buffer and the fields of the loop go in and come out.
  unfoldable pub feed : String → String × Fields → S → Flow E (String × Fields) S
  unfolding take_lines process_lines
  feed text (line_buf, f) s =
      let (lines, rest) = take_lines (line_buf ++ text) in
      and_then (process_lines lines f s) (λ f' s'. running (rest, f') s')

  abbrev pub chunk_text : Option String → E → String × Fields → S → Flow E (String × Fields) S
  chunk_text none non_utf8 state s = failed non_utf8
  chunk_text (some text) non_utf8 state s = feed text state s

  -- The loop over what it wakes up for; after the last the stream ends. `from_utf8` and its
  -- error are Rust's.
  unfoldable pub stream_events :
      (from_utf8 : List ℕ → Option String) (non_utf8 : E)
      → List (Wake E)
      → String × Fields
      → S
      → Flow E (String × Fields) S
  unfolding feed
  stream_events from_utf8 non_utf8 List.[] state s = ended eof s
  stream_events from_utf8 non_utf8 (List.◌∷◌ (read_error e) rest) state s = failed e
  stream_events from_utf8 non_utf8 (List.◌∷◌ timer rest) state s = ended watchdog s
  stream_events from_utf8 non_utf8 (List.◌∷◌ (chunk bytes) rest) state s =
      and_then (chunk_text (from_utf8 bytes) non_utf8 state s)
        (stream_events from_utf8 non_utf8 rest)
