-- ===== src/Sync/Stream/Events.antt =====
-- An event written out in lines is dispatched as it was.
use Prim.Native.Char.{Char}
use Prim.Native.String.{String, ◌∷◌, ◌++◌}
use text.Mathlib.TextLemmas.{cons-append, append_assoc, append-ne-nil_of_right_ne-nil, cons-ne-nil}
use mathlib.Core.List.{List}
use mathlib.Core.List.{◌++◌ as ◌+++◌}
use vectorhawkd.Base.{
  ◌≡◌, ◌≢◌, refl, sym, ap, ◌∙◌, Bool, false, Option, none, ◌==◌, All, map, eq_false_of_ne, Result,
}
use vectorhawkd.Base.Texts.{trim_start, trim_end, strip_prefix, join_with}
use vectorhawkd.Base.Texts.Split.{strip_prefix-append}
use vectorhawkd.Sync.Stream.{
  Fields, no_fields, running, and_then, is_return, is_comment, add_data, set_field, dispatched,
  process_sse_line, process_lines,
}

abbrev add_all : String → List String → String
add_all so_far List.[] = so_far
add_all so_far (List.◌∷◌ value values) = add_all (add_data so_far value) values

join_grown :
    (first value : String) (values : List String)
    → join_with "\n" (List.◌∷◌ (first ++ ("\n" ++ value)) values)
      ≡ join_with "\n" (List.◌∷◌ first (List.◌∷◌ value values))
unfolding join_with
join_grown first value List.[] = refl
join_grown first value (List.◌∷◌ next values) = simp append_assoc

add_all_join :
    (so_far : String) (values : List String)
    → so_far ≢ ""
    → add_all so_far values ≡ join_with "\n" (List.◌∷◌ so_far values)
unfolding join_with
add_all_join so_far List.[] present = refl
add_all_join so_far (List.◌∷◌ value values) present =
    let filled : (so_far == "") ≡ false = eq_false_of_ne so_far "" present in
    let longer : so_far ++ ("\n" ++ value) ≢ "" =
      append-ne-nil_of_right_ne-nil so_far
        (λ e. cons-ne-nil "\n" ("" ++ value) (sym (cons-append "\n" "" value) ∙ e)) in
    rw filled
      (add_all_join (so_far ++ ("\n" ++ value)) values longer ∙ join_grown so_far value values)

join_present :
    (first : String) (values : List String)
    → first ≢ ""
    → join_with "\n" (List.◌∷◌ first values) ≢ ""
unfolding join_with
join_present first List.[] present = present
join_present first (List.◌∷◌ value values) present =
    let rest = join_with "\n" (List.◌∷◌ value values) in
    append-ne-nil_of_right_ne-nil first
      (λ e. cons-ne-nil "\n" ("" ++ rest) (sym (cons-append "\n" "" rest) ∙ e))

no_event : (value : String) → strip_prefix ("data:" ++ value) "event:" ≡ none
unfolding strip_prefix
no_event value = rw (cons-append "d" "ata:" value) refl

is_line :
    (c : Char) (name value : String)
    → is_comment (c ∷ name) ≡ false
    → (((c ∷ name) ++ value == "") ≡ false) × (is_comment ((c ∷ name) ++ value) ≡ false)
is_line c name value plain = (
  eq_false_of_ne ((c ∷ name) ++ value) ""
      (λ e. cons-ne-nil c (name ++ value) (sym (cons-append c name value) ∙ e)),
  rw (cons-append c name value) plain,
)

module _ (is_white : Char → Bool) where
  -- A value that the reader gives back as it stands in its line.
  abbrev pub IsPlain : String → String → Type 0
  IsPlain prefix value =
      (trim_start is_white value ≡ value) × (trim_end is_return (prefix ++ value) ≡ prefix ++ value)

  set_field_event :
      (value : String) (f : Fields)
      → set_field is_white ("event:" ++ value) f
        ≡ record f { event_type = trim_start is_white value }
  unfolding set_field
  set_field_event value f = rw (strip_prefix-append "event:" value, set_field) refl

  set_field_data :
      (value : String) (f : Fields)
      → set_field is_white ("data:" ++ value) f
        ≡ record f { event_data = add_data (f.event_data) (trim_start is_white value) }
  unfolding set_field
  set_field_data value f = rw (no_event value, strip_prefix-append "data:" value, set_field) refl

module _ {E S : Type 0} (is_white : Char → Bool)
    (dispatch : String → String → Option String → S → Result E (S × Bool)) where
  process_event_line :
      (value : String) (f : Fields) (s : S)
      → IsPlain is_white "event:" value
      → process_sse_line is_white dispatch (trim_end is_return ("event:" ++ value)) f s
        ≡ running (record f { event_type = value }) s
  unfolding process_sse_line
  process_event_line value f s (start, whole) =
      let (present, named) = is_line "e" "vent:" value refl in
      rw (whole, present, named, set_field_event is_white value f, start) refl

  process_data_line :
      (value : String) (f : Fields) (s : S)
      → IsPlain is_white "data:" value
      → process_sse_line is_white dispatch (trim_end is_return ("data:" ++ value)) f s
        ≡ running (record f { event_data = add_data (f.event_data) value }) s
  unfolding process_sse_line
  process_data_line value f s (start, whole) =
      let (present, named) = is_line "d" "ata:" value refl in
      rw (whole, present, named, set_field_data is_white value f, start) refl

  abbrev pub data_lines : List String → List String
  data_lines values = map (λ value. "data:" ++ value) values

  process_data_lines :
      (values rest : List String) (f : Fields) (s : S)
      → All (IsPlain is_white "data:") values
      → process_lines is_white dispatch (data_lines values +++ rest) f s
        ≡ process_lines is_white dispatch rest
            (record f { event_data = add_all (f.event_data) values })
            s
  unfolding process_lines
  process_data_lines List.[] rest f s plain = refl
  process_data_lines (List.◌∷◌ value values) rest f s (here, plain) =
      rw (process_data_line value f s here) (
        process_data_lines values rest (record f { event_data = add_data (f.event_data) value }) s
          plain)

  process_blank_line :
      (rest : List String) (f : Fields) (s : S)
      → f.event_data ≢ ""
      → process_lines is_white dispatch (List.◌∷◌ "" rest) f s
        ≡ and_then
            (dispatched is_white dispatch (dispatch (f.event_type) (f.event_data) (f.event_id) s))
            (process_lines is_white dispatch rest)
  unfolding process_lines process_sse_line trim_end
  process_blank_line rest f s present = rw (eq_false_of_ne (f.event_data) "" present) refl

  -- An event written as a line with its type, lines with its data and a blank line is dispatched
  -- with that type and the data joined by newlines; the reader then stands before what follows,
  -- with no field set. The values have no blank in front and no carriage return at the end, and
  -- the first line of data is not empty.
  pub process_lines-event :
      (event_type first : String) (values rest : List String) (s : S)
      → IsPlain is_white "event:" event_type
      → All (IsPlain is_white "data:") (List.◌∷◌ first values)
      → first ≢ ""
      → process_lines is_white dispatch
          (List.◌∷◌
            ("event:" ++ event_type)
            (data_lines (List.◌∷◌ first values) +++ List.◌∷◌ "" rest))
          no_fields
          s
        ≡ and_then
            (dispatched is_white dispatch
              (dispatch event_type (join_with "\n" (List.◌∷◌ first values)) none s))
            (process_lines is_white dispatch rest)
  unfolding process_lines
  process_lines-event event_type first values rest s type_line data_plain present =
      let typed : Fields = record no_fields { event_type = event_type } in
      let joined = join_with "\n" (List.◌∷◌ first values) in
      let filled : Fields = record typed { event_data = joined } in
      rw (process_event_line event_type no_fields s type_line) (
        process_data_lines (List.◌∷◌ first values) (List.◌∷◌ "" rest) typed s data_plain
        ∙ ap
            (λ text.
              process_lines is_white dispatch (List.◌∷◌ "" rest)
                (record typed { event_data = text }) s)
            (add_all_join first values present)
        ∙ process_blank_line rest filled s (join_present first values present))
