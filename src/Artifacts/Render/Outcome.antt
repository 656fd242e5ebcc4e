-- ===== src/Artifacts/Render/Outcome.antt =====
-- When `render_artifact` returns, for a document of a known type.
use ai_dev_project.Prelude.{String, ◌≡◌, refl, ap, ◌↔◌, none, some, Each}
use ai_dev_project.Prelude.Dict.{lookup}
use ai_dev_project.Python.{Result, >>=-eq-ok}
use ai_dev_project.Json.{null, str, Items, Fields, get, get_or, to_text, to_list}
use ai_dev_project.Platform.{Platform}
use ai_dev_project.Artifacts.{has_key}
use ai_dev_project.Artifacts.Render.{shown, links_section, approval_section}
use ai_dev_project.Artifacts.Render.Dispatch.{renderers, artifact_type_of, render_artifact}
use ai_dev_project.Artifacts.Render.Totality.{
  Returns, Readable, returns-bind, links_value, section_iff,
}

module _ (P : Platform) where
  -- Once the body of a document without an approval returns, only its links matter.
  pub links_decide :
      (d : Fields) (source : String) (renderer : Fields → Result String) (links : Items)
      → lookup (shown P (artifact_type_of P d)) (renderers P) ≡ some renderer
      → Returns (renderer d)
      → get_or d "links" null ≡ links_value P links
      → get d "approval" ≡ none
      → Returns (render_artifact P d source) ↔ Each Readable (to_list links)
  unfolding render_artifact approval_section
  links_decide d source renderer links found body l a = (
    λ (t, e).
        let (b, _, e1) = >>=-eq-ok (renderer d) _ (rw (found, render_artifact) at e) in
        let (ls, h, _) = >>=-eq-ok (links_section P (get_or d "links" null)) _ e1 in
        (section_iff P links).0 (ls, rw l at h),
    λ all.
        rw (found, render_artifact)
          (returns-bind body λ _ _.
            returns-bind {m = links_section P (get_or d "links" null)}
              (rw l ((section_iff P links).1 all))
              λ _ _.
                returns-bind {m = approval_section P (get_or d "approval" null)}
                  ("", rw (a, get_or, approval_section)) λ _ _. (_, refl)),
  )

  -- A document that names its type goes to the renderer of that type.
  pub dispatch_lem :
      (d : Fields) (type : String)
      → get d "artifact_type" ≡ some (str type)
      → lookup (shown P (artifact_type_of P d)) (renderers P) ≡ lookup type (renderers P)
  unfolding to_text
  dispatch_lem d type e = ap (λ v. lookup (shown P v) (renderers P)) names
    where
      names : artifact_type_of P d ≡ str type
      names = rw (e, artifact_type_of, has_key, get_or)
