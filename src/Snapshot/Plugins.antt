-- ===== src/Snapshot/Plugins.antt =====
-- crates/scenery-daemon/src/sync/reconciler.rs, build_derived_plugin_events_blocking: what a
-- snapshot of the desired plugins asks for, against the governed plugins that are installed.
pub mod Diff
use vectorhawkd.Base.{
  ℕ, String, Bool, true, false, not, ◌&&◌, ◌||◌, Option, none, some, List, [], ◌∷◌, ◌++◌, ◌==◌,
  keep, map, contains, if◌then◌else◌,
}

pub record PluginSkillRef : Type 0 where
  pub skill_id : String
  pub version : String

pub record PluginInstallationRecord : Type 0 where
  pub installation_id : ℕ
  pub plugin_slug : String
  pub plugin_name : String
  pub description : String
  pub version : String
  pub author : String
  pub skills : List PluginSkillRef
  pub state : String

-- The events of `SyncEvent` that the snapshot of the plugins derives. An installation carries all
-- the fields of its record but the state.
pub data PluginEvent : Type 0 where
  install_plugin : PluginInstallationRecord → PluginEvent
  deactivate_plugin : (installation_id : ℕ) (plugin_slug : String) → PluginEvent

pub record PluginDiff : Type 0 where
  pub events : List PluginEvent
  pub silent_purges : List String

abbrev pub no_diff : PluginDiff
no_diff = record { events = []; silent_purges = [] }

-- What is read of the disk: the slugs that `list_governed_plugins` gives, none if the file cannot
-- be read, and whether `has_bundled_skill_record` finds one, none if that fails.
pub record LocalPlugins : Type 0 where
  pub governed : Option (List String)
  pub has_bundled_skill_record : String → Option Bool

abbrev or_true : Option Bool → Bool
or_true none = true
or_true (some b) = b

abbrev is_empty : {A : Type 0} → List A → Bool
is_empty [] = true
is_empty (x ∷ xs) = false

abbrev pub wants_plugin : PluginInstallationRecord → Bool
wants_plugin r = (r.state == "desired") || ((r.state == "installing") || (r.state == "installed"))

-- A plugin written by an older daemon, without the record of its skills.
unfoldable pub is_legacy : LocalPlugins → List String → PluginInstallationRecord → Bool
is_legacy l slugs r =
    contains slugs (r.plugin_slug)
    && (not (is_empty (r.skills)) && not (or_true (l.has_bundled_skill_record (r.plugin_slug))))

abbrev pub needs_install : LocalPlugins → List String → PluginInstallationRecord → Bool
needs_install l slugs r = not (contains slugs (r.plugin_slug)) || is_legacy l slugs r

abbrev add_event : PluginEvent → PluginDiff → PluginDiff
add_event event d = record d { events = event ∷ d.events }

abbrev add_purge : String → PluginDiff → PluginDiff
add_purge slug d = record d { silent_purges = slug ∷ d.silent_purges }

-- One round of the loop over the records, before what the rest of the loop pushes.
unfoldable pub derive_plugin :
    LocalPlugins → List String → PluginInstallationRecord → PluginDiff → PluginDiff
derive_plugin l slugs r rest =
    if wants_plugin r
    then (if needs_install l slugs r then add_event (install_plugin r) rest else rest)
    else if r.state == "deactivated"
    then (if contains slugs (r.plugin_slug)
        then add_event (deactivate_plugin (r.installation_id) (r.plugin_slug)) rest
        else rest)
    else if r.state == "removed"
    then (if contains slugs (r.plugin_slug) then add_purge (r.plugin_slug) rest else rest)
    else rest

unfoldable pub derive_plugins :
    LocalPlugins → List String → List PluginInstallationRecord → PluginDiff
unfolding derive_plugin
derive_plugins l slugs [] = no_diff
derive_plugins l slugs (r ∷ records) = derive_plugin l slugs r (derive_plugins l slugs records)

abbrev pub slugs_of : List PluginInstallationRecord → List String
slugs_of records = map (λ r. r.plugin_slug) records

-- Plugins that the snapshot does not name at all.
abbrev pub orphans : List String → List PluginInstallationRecord → List String
orphans slugs records = keep (λ slug. not (contains (slugs_of records) slug)) slugs

abbrev pub with_orphans : List String → PluginDiff → PluginDiff
with_orphans gone d = record d { silent_purges = gone ++ d.silent_purges }

abbrev pub diff_against :
    LocalPlugins → List PluginInstallationRecord → Option (List String) → PluginDiff
diff_against l records none = no_diff
diff_against l records (some slugs) =
    with_orphans (orphans slugs records) (derive_plugins l slugs records)

unfoldable pub build_derived_plugin_events :
    LocalPlugins → List PluginInstallationRecord → PluginDiff
unfolding derive_plugins
build_derived_plugin_events l [] = no_diff
build_derived_plugin_events l (r ∷ records) = diff_against l (r ∷ records) (l.governed)
