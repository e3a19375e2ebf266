-- ===== src/Snapshot/Plugins/Diff.antt =====
-- Which plugins a snapshot purges and which it installs.
use vectorhawkd.Base.{
  ◌≡◌, refl, sym, ap, ◌∙◌, inl, inr, String, Bool, true, false, not, ◌&&◌, ◌||◌, some, List, [],
  ◌∷◌, ◌==◌, arith, any, contains, contains-keep, contains-append, and_false, Bool-cases, eq_iff,
  if◌then◌else◌,
}
use vectorhawkd.Snapshot.Plugins.{
  PluginInstallationRecord, PluginEvent, install_plugin, deactivate_plugin, PluginDiff,
  LocalPlugins, wants_plugin, needs_install, derive_plugin, derive_plugins, slugs_of, orphans,
  diff_against, build_derived_plugin_events,
}

abbrev pub is_removal_of : String → PluginInstallationRecord → Bool
is_removal_of slug r = (r.plugin_slug == slug) && (r.state == "removed")

abbrev pub is_install_of : String → PluginEvent → Bool
is_install_of slug (install_plugin r) = r.plugin_slug == slug
is_install_of slug (deactivate_plugin id other) = false

and_or : (a b c : Bool) → ((a && b) || (a && c)) ≡ (a && (b || c))
and_or true b c = refl
and_or false b c = refl

module _ (l : LocalPlugins) (slugs : List String) where
  no_purge :
      (r : PluginInstallationRecord) (rest : PluginDiff)
      → (r.state == "removed") ≡ false
      → (derive_plugin l slugs r rest).silent_purges ≡ rest.silent_purges
  unfolding derive_plugin
  no_purge r rest other = elim (Bool-cases (wants_plugin r)) [
    | inl wanted ↦ rw wanted (elim (Bool-cases (needs_install l slugs r)) [
      | inl missing ↦ rw missing refl
      | inr present ↦ rw present refl
    ])
    | inr unwanted ↦ rw unwanted (elim (Bool-cases (r.state == "deactivated")) [
      | inl stopped ↦ rw stopped (elim (Bool-cases (contains slugs (r.plugin_slug))) [
        | inl here ↦ rw here refl
        | inr gone ↦ rw gone refl
      ])
      | inr going ↦ rw (going, other) refl
    ])
  ]

  one_purge :
      (r : PluginInstallationRecord) (rest : PluginDiff)
      → r.state ≡ "removed"
      → (derive_plugin l slugs r rest).silent_purges ≡ (
          if contains slugs (r.plugin_slug)
          then r.plugin_slug ∷ rest.silent_purges
          else rest.silent_purges)
  unfolding derive_plugin
  one_purge r rest removed = rw removed (elim (Bool-cases (contains slugs (r.plugin_slug))) [
    | inl here ↦ rw here refl
    | inr gone ↦ rw gone refl
  ])

  derive_plugins-purges :
      (records : List PluginInstallationRecord) (slug : String)
      → contains ((derive_plugins l slugs records).silent_purges) slug
        ≡ (contains slugs slug && any (is_removal_of slug) records)
  unfolding derive_plugins
  derive_plugins-purges [] slug = sym (and_false (contains slugs slug))
  derive_plugins-purges (r ∷ records) slug =
      let ih = derive_plugins-purges records slug in
      let rest = derive_plugins l slugs records in
      elim (Bool-cases (r.state == "removed")) [
        | inr other ↦ let same = no_purge r rest other in rw same (ground (arith, ih, other))
        | inl removed ↦
            let now = (eq_iff (r.state) "removed").0 removed in
            rw (one_purge r rest now) (elim (Bool-cases (r.plugin_slug == slug)) [
              | inl named ↦
                  let one = (eq_iff (r.plugin_slug) slug).0 named in
                  let both : contains slugs (r.plugin_slug) ≡ contains slugs slug =
                    ap (contains slugs) one in
                  elim (Bool-cases (contains slugs (r.plugin_slug))) [
                    | inl here ↦ rw here (ground (arith, both, here, named, removed))
                    | inr gone ↦ rw gone (ground (arith, ih, both, gone))
                  ]
              | inr apart ↦ elim (Bool-cases (contains slugs (r.plugin_slug))) [
                | inl here ↦ rw here (ground (arith, ih, apart))
                | inr gone ↦ rw gone (ground (arith, ih, apart))
              ]
            ])
      ]

-- A governed plugin is purged with no report exactly if it is installed and the snapshot either
-- does not name it or has a record of it that is removed. A snapshot that names no plugin purges
-- none.
pub build_derived_plugin_events-purges :
    (l : LocalPlugins) (slugs : List String) (r : PluginInstallationRecord)
    (records : List PluginInstallationRecord) (slug : String)
    → l.governed ≡ some slugs
    → (contains ((build_derived_plugin_events l (r ∷ records)).silent_purges) slug ≡ (
        contains slugs slug
        && (not (contains (slugs_of (r ∷ records)) slug)
            || any (is_removal_of slug) (r ∷ records))))
      × (contains ((build_derived_plugin_events l []).silent_purges) slug ≡ false)
unfolding build_derived_plugin_events
build_derived_plugin_events-purges l slugs r records slug governed =
    let purged = derive_plugins-purges l slugs (r ∷ records) slug in
    (
      ap (λ g. contains ((diff_against l (r ∷ records) g).silent_purges) slug) governed
          ∙ (contains-append (orphans slugs (r ∷ records))
                ((derive_plugins l slugs (r ∷ records)).silent_purges) slug
              ∙ rw
                  (
                    contains-keep (λ s. not (contains (slugs_of (r ∷ records)) s)) slug slugs,
                    purged,
                  )
                  (and_or (contains slugs slug) _ _)),
      refl,
    )
