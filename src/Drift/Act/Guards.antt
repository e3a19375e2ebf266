-- ===== src/Drift/Act/Guards.antt =====
-- What a removal takes away, and what neither it nor a quarantine ever touches.
use vectorhawkd.Base.{
  ◌≡◌, refl, ap, ◌∙◌, ◌>>=◌, String, some, arith, inl, inr, true, false, Bool-cases, >>=-HasValue,
  if◌then◌else◌, ok, err,
}
use vectorhawkd.Base.Paths.{FilePath, from_text, starts_with}
use vectorhawkd.Ownership.Native.{IsNative, is_anthropic_native_in_iff}
use vectorhawkd.Ownership.{
  ensure_not_native, is_anthropic_native_path, claude_plugins_dir, read_known_marketplaces,
  out_of_scope, scenery_mcp_key, is_scenery_mcp_key,
}
use vectorhawkd.Drift.{
  ManagedPathMarker, DriftOutcome, DriftError, refused_scenery_entry, Host, split_mcp_path,
  is_dir_kind,
}
use vectorhawkd.Drift.Files.{
  Disk, exists, content, remove_dir_all, exists-remove_dir_all, content-remove_dir_all,
}
use vectorhawkd.Drift.Act.{
  remove_path_for, quarantine_item, check_native, home_of, quarantine_into, quarantine_root,
}

home_of-some : (host : Host) {home : FilePath} → host.home ≡ some home → home_of host ≡ ok home
home_of-some host at = ground (arith, at)

-- With a home directory, the quarantine is decided by the kind of the item.
pub quarantine_item_at :
    (host : Host) (now : String) (disk : Disk) (o : DriftOutcome) {home : FilePath}
    → host.home ≡ some home
    → quarantine_item host now disk o
      ≡ quarantine_into host disk o (quarantine_root home now (o.kind))
unfolding quarantine_item
quarantine_item_at host now disk o at =
    ap (λ r. r >>= λ h. quarantine_into host disk o (quarantine_root h now (o.kind)))
      (home_of-some host at)

-- A directory that passes the check is not native.
check_native_sound :
    (host : Host) (dir : FilePath) {home : FilePath}
    → host.home ≡ some home
    → check_native host dir ≡ ok tt
    → ¬ IsNative dir (claude_plugins_dir home) (read_known_marketplaces (host.known_marketplaces))
unfolding ensure_not_native is_anthropic_native_path
check_native_sound host dir {home} at passed native =
    let known = read_known_marketplaces (host.known_marketplaces) in
    let plugins = claude_plugins_dir home in
    let protected = (is_anthropic_native_in_iff dir plugins known).1 native in
    let refused : check_native host dir ≡ err (DriftError.native (out_of_scope dir)) =
      rw (at, protected) refl in
    cc

-- A skill or plugin is removed only if its directory is not Anthropic's own content, as
-- `IsNative` describes it. Then nothing is left at or below the directory, and every file
-- elsewhere is as it was. Paths are compared as they are written.
pub remove_path_for-removes :
    (host : Host) (disk : Disk) (m : ManagedPathMarker) {home : FilePath} {disk' : Disk}
    → host.home ≡ some home
    → is_dir_kind (m.kind) ≡ true
    → remove_path_for host disk m ≡ ok disk'
    → (¬ IsNative
        (from_text (m.path))
        (claude_plugins_dir home)
        (read_known_marketplaces (host.known_marketplaces)))
      × (exists disk' (from_text (m.path)) ≡ false)
      × ((path : FilePath)
          → starts_with path (from_text (m.path)) ≡ false
          → content disk' path ≡ content disk path)
unfolding remove_path_for
remove_path_for-removes host disk m {home} {disk'} at dir removed =
    let dir_path = from_text (m.path) in
    let (u, checked, last) =
      >>=-HasValue (check_native host dir_path)
        (λ _. ok (if exists disk dir_path then remove_dir_all disk dir_path else disk))
        (rw dir at removed) in
    let safe = check_native_sound host dir_path at checked in
    elim (Bool-cases (exists disk dir_path)) [
      | inl there ↦
          let same : remove_dir_all disk dir_path ≡ disk' = ground (arith, there) in
          rw (← same) (
            safe,
            exists-remove_dir_all disk dir_path,
            λ path apart. content-remove_dir_all disk dir_path path apart,
          )
      | inr gone ↦
          let same : disk ≡ disk' = ground (arith, gone) in
          rw (← same) (safe, gone, λ path apart. refl)
    ]

-- The entry of Scenery itself in the file of Claude's servers is neither removed nor moved to
-- the quarantine, whatever marker names it.
pub scenery_entry_refused :
    (host : Host) (now : String) (disk : Disk) (marker : ManagedPathMarker) (o : DriftOutcome)
    {home file : FilePath}
    → host.home ≡ some home
    → marker.kind ≡ "mcp"
    → split_mcp_path (marker.path) ≡ ok (file, scenery_mcp_key)
    → o.kind ≡ marker.kind
    → o.path ≡ marker.path
    → (remove_path_for host disk marker ≡ err refused_scenery_entry)
      × (quarantine_item host now disk o ≡ err refused_scenery_entry)
unfolding remove_path_for quarantine_item is_scenery_mcp_key
scenery_entry_refused host now disk marker o at mcp named kind path =
    (rw (mcp, named) refl, quarantine_item_at host now disk o at ∙ rw (kind, path, mcp, named) refl)
