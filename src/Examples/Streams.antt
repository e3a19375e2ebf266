-- ===== src/Examples/Streams.antt =====
-- Examples on the lines of the event stream and the plugins of a snapshot.
use Prim.Native.Char.{Char, code}
use Prim.Native.String.{◌++◌ as ◌+++◌}
use vectorhawkd.Base.{
  ℕ, ◌≡◌, ◌≢◌, refl, String, Bool, true, false, not, ◌&&◌, ◌||◌, Option, none, some, List, [], ◌∷◌,
  ◌++◌, eq_iff, contains, any, eqb, if◌then◌else◌, Result, ok,
}
use vectorhawkd.Base.Texts
use vectorhawkd.Base.Texts.{join_with}
use vectorhawkd.Sync.Stream.{no_fields, process_lines, stream_events, and_then, dispatched}
use vectorhawkd.Sync.Stream.Chunks.{chunks_of, stream_events-rechunk}
use vectorhawkd.Sync.Stream.Events.{IsPlain, data_lines, process_lines-event}
use vectorhawkd.Snapshot.Plugins.{
  PluginInstallationRecord, LocalPlugins, slugs_of, build_derived_plugin_events,
}
use vectorhawkd.Snapshot.Plugins.Diff.{is_removal_of, build_derived_plugin_events-purges}

abbrev is_space : Char → Bool
is_space c = eqb (code c) 32

-- The events that were dispatched, the last one first.
abbrev Seen : Type 0
Seen = List (String × String)

abbrev note : String → String → Option String → Seen → Result String (Seen × Bool)
note event_type event_data event_id seen = ok ((event_type, event_data) ∷ seen, false)

-- Bytes as the texts that they stand for.
abbrev reader : List ℕ → Option String
reader [] = none
reader (b ∷ rest) =
    if eqb b 1
    then some "event: ping\nda"
    else if eqb b 2
    then some "ta: a\n\n"
    else if eqb b 3
    then some "event: ping\n"
    else some "data: a\n\n"

stream_events-rechunk_example :
    stream_events is_space note reader "not UTF-8"
      (chunks_of is_space note ((1 ∷ [], "event: ping\nda") ∷ ((2 ∷ [], "ta: a\n\n") ∷ [])))
      ("", no_fields)
      []
    ≡ stream_events is_space note reader "not UTF-8"
        (chunks_of is_space note ((3 ∷ [], "event: ping\n") ∷ ((4 ∷ [], "data: a\n\n") ∷ [])))
        ("", no_fields)
        []
stream_events-rechunk_example =
    stream_events-rechunk is_space note reader "not UTF-8" (1 ∷ [], "event: ping\nda")
      (3 ∷ [], "event: ping\n") ((2 ∷ [], "ta: a\n\n") ∷ []) ((4 ∷ [], "data: a\n\n") ∷ [])
      ("", no_fields) [] (refl, (refl, tt)) (refl, (refl, tt)) refl

a-IsPlain : IsPlain is_space "data:" "a"
unfolding Texts.trim_start Texts.trim_end
a-IsPlain = (refl, refl)

ping-IsPlain : IsPlain is_space "event:" "ping"
unfolding Texts.trim_start Texts.trim_end
ping-IsPlain = (refl, refl)

a_is_there : ◌≢◌ {A = String} "a" ""
a_is_there e = cc ((eq_iff "a" "").1 e)

process_lines-event_example :
    process_lines is_space note
      (("event:" +++ "ping") ∷ (data_lines is_space note ("a" ∷ ("a" ∷ [])) ++ "" ∷ []))
      no_fields
      []
    ≡ and_then
        (dispatched is_space note (note "ping" (join_with "\n" ("a" ∷ ("a" ∷ []))) none []))
        (process_lines is_space note [])
process_lines-event_example =
    process_lines-event is_space note "ping" "a" ("a" ∷ []) [] [] ping-IsPlain
      (a-IsPlain, (a-IsPlain, tt)) a_is_there

abbrev removed_plugin : PluginInstallationRecord
removed_plugin = record {
  installation_id = 1;
  plugin_slug = "draft";
  plugin_name = "Draft";
  description = "";
  version = "1";
  author = "";
  skills = [];
  state = "removed";
}

abbrev two_plugins : LocalPlugins
two_plugins = record {
  governed = some ("draft" ∷ ("review" ∷ []));
  has_bundled_skill_record = λ slug. some true;
}

build_derived_plugin_events-purges_example :
    (contains
        ((build_derived_plugin_events two_plugins (removed_plugin ∷ [])).silent_purges)
        "draft"
      ≡ (contains ("draft" ∷ ("review" ∷ [])) "draft"
          && (not (contains (slugs_of (removed_plugin ∷ [])) "draft")
              || any (is_removal_of "draft") (removed_plugin ∷ []))))
    × (contains ((build_derived_plugin_events two_plugins []).silent_purges) "draft" ≡ false)
build_derived_plugin_events-purges_example =
    build_derived_plugin_events-purges two_plugins ("draft" ∷ ("review" ∷ [])) removed_plugin []
      "draft" refl
