-- ===== src/Drift/Cycle/Frame.antt =====
-- Which files a cycle leaves as they were, and what it does with an unknown kind.
use vectorhawkd.Base.{
  ◌≡◌, ◌≢◌, refl, ◌∙◌, inl, inr, String, true, false, Option, some, List, [], ◌∷◌, ◌==◌, arith, All,
  Bool-cases, Option-cases, eq_false_of_ne, ◌++◌, keep, not, contains, Result, ok, err,
  >>=-HasValue, if◌then◌else◌,
}
use Prim.Native.String.{◌++◌ as ◌+++◌}
use vectorhawkd.Base.Json.{Json}
use vectorhawkd.Base.Paths.{FilePath, from_text, is_absolute, join_path, starts_with}
use vectorhawkd.Ownership.{is_scenery_mcp_key}
use vectorhawkd.Drift.{
  ManagedPathMarker, DriftError, DriftOutcome, DriftStatus, PolicyMode, Host, split_mcp_path,
  scan_once, read_policy_mode, classify, current_hash_for, is_dir_kind, read_json, server_entry,
}
use vectorhawkd.Drift.Files.{
  Disk, content, exists, path_eq, write, rename, not_below, content-write, content-rename,
}
use vectorhawkd.Drift.Act.{
  quarantine_item, quarantine_into, quarantine_root, home_of, quarantine_directory,
  quarantine_entry, check_native, write_without, or_null,
}
use vectorhawkd.Drift.Resolve.{World}
use vectorhawkd.Drift.Cycle.{
  Links, Cycle, on_status, on_deleted, is_replaced, quarantined, apply_policy, handle_outcome,
  handle_outcomes, run_cycle,
}

-- No component of the path leads upwards.
abbrev pub IsDirect : FilePath → Type 0
IsDirect path = contains path ".." ≡ false

-- What is joined to a directory by this name lies in the directory.
abbrev pub IsInner : String → Type 0
IsInner name = (is_absolute (from_text name) ≡ false) × IsDirect (from_text name)

-- A file that an item does not lead to, where neither has `..` in its path: it is not in the
-- quarantine, and neither below the item's directory nor the file of the item's server. The name
-- that the item gets in the quarantine must lie in the quarantine.
abbrev pub IsApart : Host → (now : String) → FilePath → DriftOutcome → Type 0
IsApart host now path o =
    ((home : FilePath)
      → host.home ≡ some home
      → IsDirect home × (starts_with path (quarantine_root home now (o.kind)) ≡ false))
    × IsDirect path
    × (is_dir_kind (o.kind) ≡ true
        → IsInner (o.slug)
          × IsDirect (from_text (o.path))
          × (starts_with path (from_text (o.path)) ≡ false))
    × ((file : FilePath) (slug : String)
        → split_mcp_path (o.path) ≡ ok (file, slug)
        → IsInner (slug +++ ".json") × IsDirect file × (path_eq file path ≡ false))

home_of_sound : (host : Host) {home : FilePath} → home_of host ≡ ok home → host.home ≡ some home
home_of_sound host found = elim (Option-cases (host.home)) [
  | inl absent ↦ absurd (ground (arith, absent))
  | inr (home, present) ↦ ground (arith, present)
]

starts_with_longer :
    (path base rest : FilePath)
    → starts_with path base ≡ false
    → starts_with path (base ++ rest) ≡ false
unfolding starts_with
starts_with_longer path [] rest apart = cc
starts_with_longer [] (b ∷ base) rest apart = refl
starts_with_longer (p ∷ path) (b ∷ base) rest apart =
    ground (arith, starts_with_longer path base rest)

-- A name that lies in a directory is joined to it.
join_path-inner :
    (base : FilePath) (name : String)
    → IsInner name
    → join_path base (from_text name) ≡ base ++ keep (λ part. not (part == ".")) (from_text name)
join_path-inner base name inner = rw (inner.0) refl

quarantine_directory-content :
    (host : Host) (disk : Disk) (src dest_root path : FilePath) (slug : String) {disk' : Disk}
    → quarantine_directory host disk src dest_root slug ≡ ok disk'
    → IsInner slug
    → starts_with path src ≡ false
    → starts_with path dest_root ≡ false
    → content disk' path ≡ content disk path
quarantine_directory-content host disk src dest_root path slug {disk'} done inner apart clear =
    let dest = join_path dest_root (from_text slug) in
    let within = keep (λ part. not (part == ".")) (from_text slug) in
    let clear_dest : starts_with path dest ≡ false =
      rw (join_path-inner dest_root slug inner) (starts_with_longer path dest_root within clear) in
    let (u, checked, last) =
      >>=-HasValue (check_native host src)
        (λ _. ok (if exists disk src then rename disk src dest else disk)) done in
    elim (Bool-cases (exists disk src)) [
      | inl there ↦
          let same : rename disk src dest ≡ disk' = ground (arith, there) in
          rw (← same) (content-rename disk src dest path apart clear_dest)
      | inr gone ↦ let same : disk ≡ disk' = ground (arith, gone) in rw (← same) refl
    ]

quarantine_entry-content :
    (host : Host) (disk : Disk) (dest_root path file : FilePath) (slug : String) {disk' : Disk}
    → quarantine_entry host disk dest_root (file, slug) ≡ ok disk'
    → IsInner (slug +++ ".json")
    → path_eq file path ≡ false
    → starts_with path dest_root ≡ false
    → content disk' path ≡ content disk path
quarantine_entry-content host disk dest_root path file slug {disk'} done inner apart clear =
    let name = slug +++ ".json" in
    let dest = join_path dest_root (from_text name) in
    let within = keep (λ part. not (part == ".")) (from_text name) in
    let clear_dest : path_eq dest path ≡ false =
      rw (join_path-inner dest_root name inner) (not_below dest_root within path clear) in
    let after : Json → Disk = λ root.
      write_without host (write disk dest (host.to_json_pretty (or_null (server_entry slug root))))
        file slug root in
    elim (Bool-cases (is_scenery_mcp_key slug)) [
      | inl own ↦ absurd (ground (arith, own))
      | inr other ↦ elim (Bool-cases (exists disk file)) [
        | inr gone ↦ let same : disk ≡ disk' = ground (arith, other, gone) in rw (← same) refl
        | inl there ↦
            let (root, read, last) =
              >>=-HasValue (read_json host disk file) (λ root. ok (after root))
                (rw (other, there) at done) in
            let same : after root ≡ disk' = cc in
            let snapshot = host.to_json_pretty (or_null (server_entry slug root)) in
            rw (← same) (
              content-write (write disk dest snapshot) file path _ apart
              ∙ content-write disk dest path snapshot clear_dest)
      ]
    ]

quarantine_into-content :
    (host : Host) (disk : Disk) (o : DriftOutcome) (dest_root path : FilePath) {disk' : Disk}
    → quarantine_into host disk o dest_root ≡ ok disk'
    → starts_with path dest_root ≡ false
    → (is_dir_kind (o.kind) ≡ true
        → IsInner (o.slug)
          × IsDirect (from_text (o.path))
          × (starts_with path (from_text (o.path)) ≡ false))
    → ((file : FilePath) (slug : String)
        → split_mcp_path (o.path) ≡ ok (file, slug)
        → IsInner (slug +++ ".json") × IsDirect file × (path_eq file path ≡ false))
    → content disk' path ≡ content disk path
quarantine_into-content host disk o dest_root path {disk'} done clear dir server =
    elim (Bool-cases (is_dir_kind (o.kind))) [
      | inl inside ↦
          quarantine_directory-content host disk (from_text (o.path)) dest_root path (o.slug)
            (rw inside at done) ((dir inside).0) ((dir inside).2) clear
      | inr other ↦ elim (Bool-cases (o.kind == "mcp")) [
        | inl mcp ↦
            let ((file, slug), named, rest) =
              >>=-HasValue (split_mcp_path (o.path)) (quarantine_entry host disk dest_root)
                (rw (other, mcp) at done) in
            let (inner, direct, apart) = server file slug named in
            quarantine_entry-content host disk dest_root path file slug rest inner apart clear
        | inr neither ↦
            let same : disk ≡ disk' = cc (rw (other, neither) at done) in rw (← same) refl
      ]
    ]

quarantine_item-content :
    (host : Host) (now : String) (disk : Disk) (o : DriftOutcome) (path : FilePath) {disk' : Disk}
    → quarantine_item host now disk o ≡ ok disk'
    → IsApart host now path o
    → content disk' path ≡ content disk path
unfolding quarantine_item
quarantine_item-content host now disk o path {disk'} done (clear, direct, dir, server) =
    let (home, found, rest) =
      >>=-HasValue (home_of host)
        (λ home. quarantine_into host disk o (quarantine_root home now (o.kind))) done in
    quarantine_into-content host disk o (quarantine_root home now (o.kind)) path rest
      ((clear home (home_of_sound host found)).1) dir server

quarantined-content :
    (w : World) (o : DriftOutcome) (path : FilePath) (answer : Result DriftError Disk)
    → ((disk' : Disk) → answer ≡ ok disk' → content disk' path ≡ content (w.disk) path)
    → content (((quarantined w o answer).0).disk) path ≡ content (w.disk) path
quarantined-content w o path (ok disk) kept = kept disk refl
quarantined-content w o path (err e) kept = refl

module _ (host : Host) (links : Links) (now : String) where
  apply_policy-content :
      (mode : PolicyMode) (w : World) (o : DriftOutcome) (path : FilePath)
      → IsApart host now path o
      → content (((apply_policy host links now mode w o).0).disk) path ≡ content (w.disk) path
  unfolding apply_policy
  apply_policy-content PolicyMode.audit_only w o path apart = refl
  apply_policy-content PolicyMode.warn w o path apart = refl
  apply_policy-content PolicyMode.approve_required w o path apart = refl
  apply_policy-content PolicyMode.quarantine w o path apart =
      quarantined-content w o path (quarantine_item host now (w.disk) o)
        (λ disk' e. quarantine_item-content host now (w.disk) o path e apart)

  on_status-content :
      (mode : PolicyMode) (c : Cycle) (o : DriftOutcome) (status : DriftStatus) (path : FilePath)
      → IsApart host now path o
      → content (((on_status host links now mode c o status).world).disk) path
        ≡ content ((c.world).disk) path
  on_status-content mode c o DriftStatus.clean path apart =
      elim (Bool-cases (is_replaced host links now (c.world) o)) [
        | inl replaced ↦ rw replaced refl
        | inr intact ↦ rw intact refl
      ]
  on_status-content mode c o DriftStatus.drifted path apart =
      apply_policy-content mode (c.world) o path apart
  on_status-content mode c o DriftStatus.deleted path apart = refl

  handle_outcomes-content :
      (mode : PolicyMode) (c : Cycle) (outcomes : List DriftOutcome) (path : FilePath)
      → All (IsApart host now path) outcomes
      → content (((handle_outcomes host links now mode c outcomes).world).disk) path
        ≡ content ((c.world).disk) path
  unfolding handle_outcomes
  handle_outcomes-content mode c [] path apart = refl
  handle_outcomes-content mode c (o ∷ outcomes) path (here, apart) =
      handle_outcomes-content mode (handle_outcome host links now mode c o) outcomes path apart
      ∙ on_status-content mode c o (o.status) path here

  -- Under any policy, a cycle leaves a file as it was that is not in the quarantine and that none
  -- of the scanned items leads to, provided that no path has a component that leads upwards and
  -- that each item's name in the quarantine is a relative path below it.
  pub run_cycle-content :
      (mode : Option String) (w : World) (path : FilePath)
      → All (IsApart host now path) (scan_once host (w.disk) (w.markers))
      → content (((run_cycle host links now mode w).world).disk) path ≡ content (w.disk) path
  unfolding run_cycle
  run_cycle-content mode w path apart =
      handle_outcomes-content (read_policy_mode mode) _ (scan_once host (w.disk) (w.markers)) path
        apart

  -- A marker of a kind that is none of the three counts as deleted: its row is dropped.
  pub handle_outcome-unknown_kind :
      (mode : PolicyMode) (c : Cycle) (marker : ManagedPathMarker)
      → marker.kind ≢ "skill"
      → marker.kind ≢ "plugin"
      → marker.kind ≢ "mcp"
      → handle_outcome host links now mode c (classify host ((c.world).disk) marker)
        ≡ on_deleted host links now c (classify host ((c.world).disk) marker)
  unfolding handle_outcome classify current_hash_for
  handle_outcome-unknown_kind mode c marker skill plugin mcp =
      rw
        (
          eq_false_of_ne (marker.kind) "skill" skill,
          eq_false_of_ne (marker.kind) "plugin" plugin,
          eq_false_of_ne (marker.kind) "mcp" mcp,
        )
        refl
