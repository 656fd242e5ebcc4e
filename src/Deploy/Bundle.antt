-- ===== src/Deploy/Bundle.antt =====
-- deploy_verify/bundle.py
use ai_dev_project.Prelude.{String, Option, none, some, List, [], ◌∷◌}
use ai_dev_project.Prelude.Text.{◌<>◌}
use ai_dev_project.Python.{Result, ok, raised, ◌>>=◌, type_error}
use ai_dev_project.Json.{
  Value, str, arr, obj, Items, nil, cons, Fields, end, field, get, get_or, to_text,
}
use ai_dev_project.Platform.{Platform}
use ai_dev_project.Evidence.Record.{set_links}
use ai_dev_project.Deploy.Candidate.{sha256_digest}

abbrev pub bundle_type : String
bundle_type = "evidence-bundle"

abbrev pub object_items : List String
object_items = "signature" ∷ "sbom" ∷ "provenance" ∷ []

-- `append` on the items of an array
abbrev pub append_items : Items → Items → Items
append_items nil ws = ws
append_items (cons v vs) ws = cons v (append_items vs ws)

-- `for x in candidate.get(key, [])`: a list gives its items, a dict its keys, a text its characters,
-- of which none is a mapping, and anything else cannot be iterated over.
abbrev items_of : Option Value → Result Items
items_of none = ok nil
items_of (some (arr items)) = ok items
items_of (some (obj d)) = ok nil
items_of (some (str s)) = ok nil
items_of (some _) = raised type_error

-- The keyword arguments of `build_evidence_bundle`.
pub record BundleArgs : Type 0 where
  pub artifact_id : String
  pub created_at : String
  pub actor : Fields
  pub run_id : String
  pub links : Items

module _ (P : Platform) where
  abbrev pub entry : String → String → Fields → Value
  entry kind ref value = obj (
      field "kind" (str kind)
        (field "ref" (str ref) (field "digest" (str (sha256_digest P value)) end)))

  abbrev text_at : Fields → String → String
  text_at d key = to_text P.repr (get_or d key (str ""))

  abbrev object_entries : Fields → List String → Items
  object_entries candidate [] = nil
  object_entries candidate (kind ∷ kinds) =
      let rest = object_entries candidate kinds in
      elim (get candidate kind) [
        | some (obj value) ↦ cons (entry kind ("candidate:" <> kind) value) rest
        | _ ↦ rest
      ]

  abbrev decision_entries : Items → Items
  decision_entries nil = nil
  decision_entries (cons (obj decision) vs) =
      cons (entry "policy-decision" (text_at decision "point") decision) (decision_entries vs)
  decision_entries (cons _ vs) = decision_entries vs

  -- `str(actor.get("id", "")) if isinstance(actor, Mapping) else ""`
  abbrev actor_id : Value → String
  actor_id (obj actor) = text_at actor "id"
  actor_id _ = ""

  abbrev approval_entries : Items → Items
  approval_entries nil = nil
  approval_entries (cons (obj approval) vs) =
      cons
        (entry "approval"
          (text_at approval "role" <> (":" <> actor_id (get_or approval "actor" (obj end))))
          approval)
        (approval_entries vs)
  approval_entries (cons _ vs) = approval_entries vs

  -- `_collect_items`
  unfoldable pub collect_items : Fields → Result Items
  collect_items candidate = do
    decisions ← items_of (get candidate "policy_decisions")
    approvals ← items_of (get candidate "approvals")
    ok (
        append_items (object_entries candidate object_items)
          (append_items (decision_entries decisions) (approval_entries approvals)))

  unfoldable pub bundle_digest : String → String → Items → String
  bundle_digest image candidate_digest items = sha256_digest P (
      field "image" (str image)
        (field "candidate_digest" (str candidate_digest) (field "items" (arr items) end)))

  unfoldable pub build_evidence_bundle : BundleArgs → Fields → Result Fields
  build_evidence_bundle a candidate = do
    items ← collect_items candidate
    let image = text_at candidate "image"
    let candidate_digest = sha256_digest P candidate
    ok (
        set_links a.links (
          field "schema_version" (str "1.0.0") (
            field "artifact_type" (str bundle_type) (
              field "id" (str a.artifact_id) (
                field "created_at" (str a.created_at) (
                  field "actor" (obj a.actor) (
                    field "run_id" (str a.run_id) (
                      field "image" (str image) (
                        field "candidate_digest" (str candidate_digest) (
                          field "bundle_digest" (str (bundle_digest image candidate_digest items))
                            (field "items" (arr items) end)))))))))))
