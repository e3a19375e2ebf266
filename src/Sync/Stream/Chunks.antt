-- ===== src/Sync/Stream/Chunks.antt =====
-- How the stream is cut into chunks makes no difference.
use Prim.Native.Char.{Char}
use Prim.Native.String.{String, [], ◌∷◌, ◌++◌}
use text.Mathlib.TextLemmas.{cons-append, append_assoc}
use mathlib.Core.List.{List}
use mathlib.Core.List.{◌++◌ as ◌+++◌}
use vectorhawkd.Base.{
  ℕ, ◌≡◌, All, refl, sym, ap, ◌∙◌, inl, inr, Bool, false, Option, some, Bool-cases, Result, map,
}
use vectorhawkd.Sync.Stream.{
  Fields, Flow, running, ended, failed, and_then, is_newline, is_return, push_char, take_lines,
  process_lines, process_sse_line, feed, Wake, chunk, stream_events, eof,
}
use vectorhawkd.Base.Texts.{trim_end}

-- The lines of a text with more behind it, from those of the text and of what is left of it.
abbrev onto_lines : List String → List String × String → List String × String
onto_lines lines more = (lines +++ more.0, more.1)

take_lines_cons :
    (c : Char) (text : String)
    → is_newline c ≡ false
    → take_lines (c ∷ text) ≡ push_char c (take_lines text)
unfolding take_lines
take_lines_cons c text other = rw other refl

push_onto :
    (c : Char) (lines : List String) (rest more : String)
    → is_newline c ≡ false
    → push_char c (onto_lines lines (take_lines (rest ++ more)))
      ≡ onto_lines
          ((push_char c (lines, rest)).0)
          (take_lines ((push_char c (lines, rest)).1 ++ more))
push_onto c List.[] rest more other =
    rw (cons-append c rest more) (sym (take_lines_cons c (rest ++ more) other))
push_onto c (List.◌∷◌ line lines) rest more other = refl

take_lines-append :
    (text more : String)
    → take_lines (text ++ more)
      ≡ onto_lines ((take_lines text).0) (take_lines ((take_lines text).1 ++ more))
unfolding take_lines
take_lines-append [] more = refl
take_lines-append (c ∷ text) more = rw (cons-append c text more) (elim (Bool-cases (is_newline c)) [
  | inl newline ↦ rw newline (ap (λ p. (List.◌∷◌ "" (p.0), p.1)) (take_lines-append text more))
  | inr other ↦ rw other (
      ap (push_char c) (take_lines-append text more)
      ∙ push_onto c ((take_lines text).0) ((take_lines text).1) more other)
])

-- Going on with two continuations that agree.
and_then-and_then :
    {E A B C S : Type 0} (m : Flow E A S) (f : A → S → Flow E B S) (g : B → S → Flow E C S)
    (h : A → S → Flow E C S)
    → ((a : A) (s : S) → h a s ≡ and_then (f a s) g)
    → and_then m h ≡ and_then (and_then m f) g
and_then-and_then (running a s) f g h same = same a s
and_then-and_then (ended e s) f g h same = refl
and_then-and_then (failed e) f g h same = refl

module _ {E S : Type 0} (is_white : Char → Bool)
    (dispatch : String → String → Option String → S → Result E (S × Bool)) where
  process_lines-append :
      (lines more : List String) (f : Fields) (s : S)
      → process_lines is_white dispatch (lines +++ more) f s
        ≡ and_then
            (process_lines is_white dispatch lines f s)
            (process_lines is_white dispatch more)
  unfolding process_lines
  process_lines-append List.[] more f s = refl
  process_lines-append (List.◌∷◌ line lines) more f s =
      and_then-and_then (process_sse_line is_white dispatch (trim_end is_return line) f s)
        (process_lines is_white dispatch lines) (process_lines is_white dispatch more)
        (process_lines is_white dispatch (lines +++ more)) (process_lines-append lines more)

  -- Feeding two texts one after the other is feeding them as one, whatever stood in the buffer.
  pub feed-append :
      (text more line_buf : String) (f : Fields) (s : S)
      → feed is_white dispatch (text ++ more) (line_buf, f) s
        ≡ and_then (feed is_white dispatch text (line_buf, f) s) (feed is_white dispatch more)
  unfolding feed
  feed-append text more line_buf f s =
      let first = take_lines (line_buf ++ text) in
      let second = take_lines (first.1 ++ more) in
      let cut : take_lines (line_buf ++ (text ++ more)) ≡ onto_lines (first.0) second =
        ap take_lines (sym (append_assoc line_buf text more))
        ∙ take_lines-append (line_buf ++ text) more in
      let head = process_lines is_white dispatch (first.0) f s in
      let tail = process_lines is_white dispatch (second.0) in
      let then_rest : Fields → S → Flow E (String × Fields) S =
        λ f' s'. running (second.1, f') s' in
      let then_first : Fields → S → Flow E (String × Fields) S =
        λ f' s'. running (first.1, f') s' in
      let go_on : Fields → S → Flow E (String × Fields) S =
        λ f' s'. feed is_white dispatch more (first.1, f') s' in
      rw cut (
        ap (λ m. and_then m then_rest) (process_lines-append (first.0) (second.0) f s)
        ∙ sym (and_then-and_then head tail then_rest go_on (λ f' s'. refl))
        ∙ and_then-and_then head then_first (feed is_white dispatch more) go_on (λ f' s'. refl))

  -- A chunk with the text that its bytes are.
  abbrev pub IsText : (List ℕ → Option String) → List ℕ × String → Type 0
  IsText from_utf8 part = from_utf8 (part.0) ≡ some (part.1)

  abbrev pub chunks_of : List (List ℕ × String) → List (Wake E)
  chunks_of parts = map (λ part. chunk (part.0)) parts

  -- The text of a first chunk and of those behind it.
  abbrev pub whole_text : List ℕ × String → List (List ℕ × String) → String
  whole_text part List.[] = part.1
  whole_text part (List.◌∷◌ next parts) = part.1 ++ whole_text next parts

  abbrev at_end : String × Fields → S → Flow E (String × Fields) S
  at_end state s = ended eof s

  stream_events-chunks_of :
      (from_utf8 : List ℕ → Option String) (non_utf8 : E) (part : List ℕ × String)
      (parts : List (List ℕ × String)) (state : String × Fields) (s : S)
      → All (IsText from_utf8) (List.◌∷◌ part parts)
      → stream_events is_white dispatch from_utf8 non_utf8 (chunks_of (List.◌∷◌ part parts)) state s
        ≡ and_then (feed is_white dispatch (whole_text part parts) state s) at_end
  unfolding stream_events
  stream_events-chunks_of from_utf8 non_utf8 part List.[] state s (here, rest) = rw here refl
  stream_events-chunks_of from_utf8 non_utf8 part (List.◌∷◌ next parts) (line_buf, f) s
        (here, rest) =
      rw here (
        and_then-and_then (feed is_white dispatch (part.1) (line_buf, f) s)
          (feed is_white dispatch (whole_text next parts)) at_end
          (stream_events is_white dispatch from_utf8 non_utf8 (chunks_of (List.◌∷◌ next parts)))
          (λ state' s'. stream_events-chunks_of from_utf8 non_utf8 next parts state' s' rest)
        ∙ ap (λ m. and_then m at_end)
            (sym (feed-append (part.1) (whole_text next parts) line_buf f s)))

  -- Two ways to cut the same text into chunks, each chunk a text of its own, lead to the same
  -- events, the same state and the same end.
  pub stream_events-rechunk :
      (from_utf8 : List ℕ → Option String) (non_utf8 : E) (part other : List ℕ × String)
      (parts others : List (List ℕ × String)) (state : String × Fields) (s : S)
      → All (IsText from_utf8) (List.◌∷◌ part parts)
      → All (IsText from_utf8) (List.◌∷◌ other others)
      → whole_text part parts ≡ whole_text other others
      → stream_events is_white dispatch from_utf8 non_utf8 (chunks_of (List.◌∷◌ part parts)) state s
        ≡ stream_events is_white dispatch from_utf8 non_utf8
            (chunks_of (List.◌∷◌ other others))
            state
            s
  stream_events-rechunk from_utf8 non_utf8 part other parts others state s first second same =
      stream_events-chunks_of from_utf8 non_utf8 part parts state s first
      ∙ ap (λ text. and_then (feed is_white dispatch text state s) at_end) same
      ∙ sym (stream_events-chunks_of from_utf8 non_utf8 other others state s second)
