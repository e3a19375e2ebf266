-- ===== src/Ownership.antt =====
-- crates/scenery-mcp/src/ownership.rs: whose a piece of on-disk content is. What the disk holds,
-- parsed, is an argument; `none` is a file that is missing, unreadable or malformed.
pub mod Native
pub mod Keys
use text.Mathlib.Text.{starts_with as text_starts_with}
use vectorhawkd.Base.{
  String, Bool, true, false, not, ◌||◌, Option, none, some, List, [], ◌∷◌, ◌==◌, contains, keep,
  if◌then◌else◌, Result, ok, err,
}
use vectorhawkd.Base.Json.{Json, Fields, end, field, get, member, as_str, as_object, keys}
use vectorhawkd.Base.Paths.{FilePath, from_text, join, join_path, starts_with}

abbrev pub scenery_mcp_key : String
scenery_mcp_key = "scenery"

abbrev pub anthropic_official_repo : String
anthropic_official_repo = "anthropics/claude-plugins-official"

abbrev pub anthropic_author_name : String
anthropic_author_name = "Anthropic"

abbrev pub excluded_plugin_dirs : List String
excluded_plugin_dirs = "marketplaces" ∷ "cache" ∷ "data" ∷ []

pub data Origin : Type 0 where
  anthropic_native custom scenery_managed : Origin

unfoldable pub is_excluded_plugin_dir : String → Bool
is_excluded_plugin_dir dir_name = contains excluded_plugin_dirs dir_name

unfoldable pub is_scenery_mcp_key : String → Bool
is_scenery_mcp_key key = key == scenery_mcp_key

infixl 5 ◌>>=◌
abbrev pub ◌>>=◌ : {A B : Type 0} → Option A → (A → Option B) → Option B
none >>= f = none
some a >>= f = f a

abbrev pub is_text : String → Option String → Bool
is_text text none = false
is_text text (some s) = s == text

unfoldable pub read_known_marketplaces : Option Json → Option Fields
read_known_marketplaces file = do root ← file; as_object root

unfoldable pub marketplace_repo : Json → Option String
marketplace_repo entry = do source ← get "source" entry; repo ← get "repo" source; as_str repo

unfoldable pub marketplace_install_location : Json → Option FilePath
unfolding from_text
marketplace_install_location entry = do
  location ← get "installLocation" entry
  text ← as_str location
  some (from_text text)

unfoldable pub is_official : Json → Bool
unfolding marketplace_repo
is_official entry = is_text anthropic_official_repo (marketplace_repo entry)

abbrev official_entry : Option Json → Bool
official_entry none = false
official_entry (some entry) = is_official entry

unfoldable pub is_official_marketplace_in : String → Fields → Bool
unfolding is_official
is_official_marketplace_in name marketplaces = official_entry (member name marketplaces)

abbrev official_among : String → Option Fields → Bool
official_among name none = false
official_among name (some marketplaces) = is_official_marketplace_in name marketplaces

unfoldable pub is_official_marketplace : Option Json → String → Bool
unfolding read_known_marketplaces is_official_marketplace_in
is_official_marketplace file name = official_among name (read_known_marketplaces file)

abbrev relative_source : Option Json → Bool
relative_source (some (Json.string s)) = text_starts_with s "./" || text_starts_with s "../"
relative_source _ = false

unfoldable pub plugin_source_is_relative : Json → Bool
plugin_source_is_relative entry = relative_source (get "source" entry)

unfoldable pub author_is_anthropic : Json → Bool
author_is_anthropic value =
    is_text anthropic_author_name
      (do author ← get "author" value; name ← get "name" author; as_str name)

unfoldable pub classify_plugin_with :
    (official : Bool) (entry : Json) (marker_present : Bool) → Origin
classify_plugin_with official entry marker_present =
    if official
    then Origin.anthropic_native
    else if marker_present
    then Origin.scenery_managed
    else Origin.custom

-- `marker` says whether the plugin's directory is given and holds the marker file.
unfoldable pub classify_plugin : Option Json → String → Json → (marker : Bool) → Origin
unfolding classify_plugin_with is_official_marketplace
classify_plugin file marketplace_name entry marker =
    classify_plugin_with (is_official_marketplace file marketplace_name) entry marker

abbrev pub below_location : FilePath → Option FilePath → Bool
below_location path none = false
below_location path (some location) = starts_with path location

-- One round of the loop over the known marketplaces.
unfoldable pub is_protected_by : FilePath → FilePath → String → Json → Bool
unfolding is_official marketplace_install_location from_text
is_protected_by path marketplaces_dir name entry =
    if not (is_official entry)
    then false
    else below_location path (marketplace_install_location entry)
      || starts_with path (join_path marketplaces_dir (from_text name))

unfoldable pub is_protected_by_any : FilePath → FilePath → Fields → Bool
unfolding is_protected_by
is_protected_by_any path marketplaces_dir end = false
is_protected_by_any path marketplaces_dir (field name entry rest) =
    is_protected_by path marketplaces_dir name entry
    || is_protected_by_any path marketplaces_dir rest

abbrev pub protected_or_unknown : FilePath → FilePath → Option Fields → Bool
protected_or_unknown path marketplaces_dir none = true
protected_or_unknown path marketplaces_dir (some known) =
    is_protected_by_any path marketplaces_dir known

unfoldable pub is_anthropic_native_in : FilePath → FilePath → Option Fields → Bool
unfolding is_protected_by_any
is_anthropic_native_in path plugins_dir marketplaces =
    if starts_with path (join plugins_dir "cache") || starts_with path (join plugins_dir "data")
    then true
    else if not (starts_with path (join plugins_dir "marketplaces"))
    then false
    else protected_or_unknown path (join plugins_dir "marketplaces") marketplaces

abbrev pub claude_plugins_dir : FilePath → FilePath
claude_plugins_dir home = join (join home ".claude") "plugins"

-- `home` is `none` where no home directory resolves.
unfoldable pub is_anthropic_native_path : Option FilePath → Option Json → FilePath → Bool
unfolding is_anthropic_native_in read_known_marketplaces
is_anthropic_native_path none file path = false
is_anthropic_native_path (some home) file path =
    is_anthropic_native_in path (claude_plugins_dir home) (read_known_marketplaces file)

pub data NativeError : Type 0 where
  out_of_scope : FilePath → NativeError

unfoldable pub ensure_not_native :
    Option FilePath → Option Json → FilePath → Result NativeError (Unit {0})
unfolding is_anthropic_native_path
ensure_not_native home file path =
    if is_anthropic_native_path home file path then err (out_of_scope path) else ok tt

abbrev pub custom_keys : Option Fields → List String
custom_keys none = []
custom_keys (some servers) = keep (λ key. not (is_scenery_mcp_key key)) (keys servers)

-- The set as the list of its members, in the order of the file.
unfoldable pub native_mcp_keys_at : Option Json → List String
unfolding is_scenery_mcp_key
native_mcp_keys_at file =
    custom_keys (do root ← file; servers ← get "mcpServers" root; as_object servers)
