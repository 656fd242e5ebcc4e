-- ===== src/Tools/Artifacts/Registration.antt =====
-- What the registration of the artifact tools adds to the registry of tools.
use ai_dev_project.Prelude.{
  String, ◌≡◌, ◌∙◌, sym, ap, refl, none, some, ◌==◌, inl, inr, Option-cases, if◌then◌else◌, arith,
}
use ai_dev_project.Prelude.Dict.{lookup, lookup-put}
use ai_dev_project.Python.{ok, >>=-eq-ok}
use ai_dev_project.Platform.{Platform}
use ai_dev_project.Artifacts.{Schemas}
use ai_dev_project.Tools.Registry.{ToolSpec, ToolRegistry, register}
use ai_dev_project.Tools.Artifacts.{
  ArtifactFiles, read_artifact, write_artifact, list_artifacts, register_artifact_tools,
}

register_lem :
    {W : Type 0} (spec : ToolSpec W) (tools t : ToolRegistry W)
    → register spec tools ≡ ok t
    → (lookup spec.name tools ≡ none)
      × ((name : String)
          → lookup name t ≡ (if spec.name == name then some spec else lookup name tools))
unfolding register
register_lem spec tools t h = elim (Option-cases (lookup spec.name tools)) [
  | inl q ↦
      (q, λ name. ap (lookup name) (sym (ground (arith, q))) ∙ lookup-put spec.name name spec tools)
  | inr (old, q) ↦ ground (arith, q)
]

module _ (P : Platform) {W : Type 0} (files : ArtifactFiles W) (schemas : Schemas) where
  -- A registration of the artifact tools that returns has replaced no tool: the three names were free.
  -- Now they stand for the tools that read, write and list, and any other name for what it stood for.
  pub lookup-register_artifact_tools :
      (tools t : ToolRegistry W)
      → register_artifact_tools P files schemas tools ≡ ok t
      → (lookup "read_artifact" tools ≡ none)
        × (lookup "write_artifact" tools ≡ none)
        × (lookup "list_artifacts" tools ≡ none)
        × ((name : String)
            → lookup name t ≡ (
                if "list_artifacts" == name
                then some (list_artifacts P files)
                else if "write_artifact" == name
                then some (write_artifact P files schemas)
                else if "read_artifact" == name
                then some (read_artifact P files)
                else lookup name tools))
  unfolding register_artifact_tools
  lookup-register_artifact_tools tools t h =
      let (t1, a, h1) = >>=-eq-ok (register (read_artifact P files) tools) _ h in
      let (t2, b, h2) = >>=-eq-ok (register (write_artifact P files schemas) t1) _ h1 in
      let (free1, found1) = register_lem (read_artifact P files) tools t1 a in
      let (free2, found2) = register_lem (write_artifact P files schemas) t1 t2 b in
      let (free3, found3) = register_lem (list_artifacts P files) t2 t h2 in
      (
        free1,
        sym (found1 "write_artifact") ∙ free2,
        sym (found2 "list_artifacts" ∙ found1 "list_artifacts") ∙ free3,
        λ name. found3 name ∙ rw (found2 name, found1 name) refl,
      )
