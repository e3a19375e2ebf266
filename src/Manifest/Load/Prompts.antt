-- ===== src/Manifest/Load/Prompts.antt =====
-- What the prompts of a checked workflow point at.
use vectorhawkd.Base.{
  ◌≡◌, ◌↔◌, refl, inl, inr, String, Bool, false, List, [], ◌∷◌, All, Bool-cases, Result, ok, err,
  >>=-HasValue,
}
use Prim.Native.Char.{Char}
use vectorhawkd.Base.Paths.{FilePath}
use vectorhawkd.Manifest.{PromptSource, WorkflowStep}
use vectorhawkd.Manifest.BundlePath.{Disk, BundlePathError, outside_bundle, resolve_bundle_file}
use vectorhawkd.Manifest.Frontmatter.{is_blank}
use vectorhawkd.Manifest.Load.{resolved, check_step, validate_workflow_prompt_refs}

module _ (disk : Disk) (is_whitespace : Char → Bool) (root : FilePath) where
  -- A prompt in a file is a file of the bundle, and a prompt written out is not blank.
  abbrev pub HasPrompt : WorkflowStep → Type 0
  HasPrompt (WorkflowStep.llm id (PromptSource.inline body) inputs output_schema) =
      is_blank is_whitespace body ≡ false
  HasPrompt (WorkflowStep.llm id (PromptSource.file path) inputs output_schema) =
      (is_blank is_whitespace path ≡ false)
      × ((at : FilePath) × (resolve_bundle_file disk root path ≡ ok at))
  HasPrompt _ = Unit

  check_file :
      (path : String) (answer : Result BundlePathError FilePath)
      → (resolved disk is_whitespace root path answer ≡ ok tt)
        ↔ ((at : FilePath) × (answer ≡ ok at))
  check_file path (ok at) = (λ h. (at, refl), λ h. refl)
  check_file path (err outside_bundle) = (λ h. cc, λ h. cc (h.1))
  check_file path (err (BundlePathError.io e)) = (λ h. cc, λ h. cc (h.1))

  check_step_iff :
      (step : WorkflowStep) → (check_step disk is_whitespace root step ≡ ok tt) ↔ HasPrompt step
  unfolding check_step
  check_step_iff (WorkflowStep.llm id (PromptSource.inline body) inputs output_schema) =
      elim (Bool-cases (is_blank is_whitespace body)) [
        | inl blank ↦ rw blank (λ h. cc, λ h. cc)
        | inr present ↦ rw present (λ h. refl, λ h. refl)
      ]
  check_step_iff (WorkflowStep.llm id (PromptSource.file path) inputs output_schema) =
      elim (Bool-cases (is_blank is_whitespace path)) [
        | inl blank ↦ rw blank (λ h. cc, λ h. cc (h.0))
        | inr present ↦
            let file = check_file path (resolve_bundle_file disk root path) in
            rw present (λ h. (refl, file.0 h), λ h. file.1 (h.1))
      ]
  check_step_iff (WorkflowStep.tool id tool_name input) = (λ h. tt, λ h. refl)
  check_step_iff (WorkflowStep.transform id op input) = (λ h. tt, λ h. refl)
  check_step_iff (WorkflowStep.validate id schema input) = (λ h. tt, λ h. refl)

  -- The prompts of a workflow are accepted exactly if each prompt in a file is found inside the
  -- bundle and none is blank.
  pub validate_workflow_prompt_refs_iff :
      (steps : List WorkflowStep)
      → (validate_workflow_prompt_refs disk is_whitespace root steps ≡ ok tt) ↔ All HasPrompt steps
  unfolding validate_workflow_prompt_refs
  validate_workflow_prompt_refs_iff [] = (λ h. tt, λ h. refl)
  validate_workflow_prompt_refs_iff (step ∷ steps) =
      let here = check_step_iff step in
      let rest = validate_workflow_prompt_refs_iff steps in
      (
        λ h.
            let (u, first, then) =
              >>=-HasValue (check_step disk is_whitespace root step)
                (λ _. validate_workflow_prompt_refs disk is_whitespace root steps) h in
            (here.0 first, rest.0 then),
        λ h. rw (here.1 (h.0), rest.1 (h.1)) refl,
      )
