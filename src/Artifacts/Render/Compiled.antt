-- ===== src/Artifacts/Render/Compiled.antt =====
-- A security review that the pipeline compiles is one that artifacts/render.py can write.
use ai_dev_project.Prelude.{String, ◌≡◌, refl, Bool, false, [], arith, if◌then◌else◌}
use mathlib.Core.Path.{subst}
use ai_dev_project.Prelude.Dict.{lookup}
use ai_dev_project.Python.{ok, >>=-eq-ok, ok-injective}
use ai_dev_project.Json.{
  null, str, arr, obj, Items, nil, cons, Fields, end, field, get, get_or, item, to_text, need_obj,
  insert, item, to_list,
}
use ai_dev_project.Platform.{Platform}
use ai_dev_project.Pipeline.{
  ReviewArgs, entry_of, severity_of, disposition_of, disposition_text, dispositions, risks_of,
  build_security_review,
}
use ai_dev_project.Artifacts.Render.{each, author_lines, meta}
use ai_dev_project.Artifacts.Render.Records.{disposition_line, render_security_review}
use ai_dev_project.Artifacts.Render.Dispatch.{render_artifact}
use ai_dev_project.Artifacts.Render.Outcome.{links_decide, dispatch_lem}
use ai_dev_project.Artifacts.Render.Totality.{Returns, returns-bind, returns-shown_at}

module _ (P : Platform) where
  entry_returns : (risk : Fields) → Returns (disposition_line P (obj (entry_of P risk)))
  unfolding disposition_line get insert
  entry_returns risk =
      let d = entry_of P risk in
      returns-bind (returns-shown_at P d "risk_id" {v = get_or risk "id" null} (ground arith))
        λ _ _.
          returns-bind
            (returns-shown_at P d "severity" {v = str (severity_of P risk)} (ground arith))
            λ _ _.
              returns-bind
                (returns-shown_at P d "disposition"
                  {v = str (disposition_text (disposition_of P risk))} (ground arith))
                λ _ _. (_, refl)

  entries_return :
      (risks : Items) (found : Items × Bool)
      → dispositions P risks ≡ ok found
      → Returns (each (disposition_line P) (to_list found.0))
  unfolding dispositions each
  entries_return nil found e =
      subst (λ (f : Items × Bool). Returns (each (disposition_line P) (to_list f.0)))
        (ok-injective (nil, false) found e) ([], refl)
  entries_return (cons v vs) found e =
      let (risk, _, e1) = >>=-eq-ok (need_obj v) _ e in
      let (rest, r, e2) = >>=-eq-ok (dispositions P vs) _ e1 in
      subst (λ (f : Items × Bool). Returns (each (disposition_line P) (to_list f.0)))
        (ok-injective _ found e2)
        (returns-bind (entry_returns risk)
          λ _ _. returns-bind (entries_return vs rest r) λ _ _. (_, refl))

  returns-author : (d : Fields) → Returns (author_lines P (obj d))
  returns-author end = (_, refl)
  returns-author (field _ _ _) = (_, refl)

  module _ (a : ReviewArgs) (threat_model : Fields) where
    -- The document of a review with these entries.
    abbrev review_of : Items × Bool → Fields
    review_of found = field "schema_version" (str "1.0.0") (
        field "artifact_type" (str "security-review") (
          field "id" (str a.artifact_id) (
            field "created_at" (str a.created_at) (
              field "created_by" (obj a.actor) (
                field "run_id" (str a.run_id) (
                  field "links"
                    (arr (
                      cons
                        (obj
                          (field "rel" (str "threat") (field "href" (str a.threat_model_href) end)))
                        nil))
                    (field "feature_id" (str a.feature_id) (
                      field "threat_model_id"
                        (str (to_text P.repr (get_or threat_model "id" (str ""))))
                        (field "verdict" (str (if found.1 then "changes_requested" else "approved"))
                          (field "risk_dispositions" (arr found.0) end))))))))))

    review_meta : (found : Items × Bool) → Returns (meta P (review_of found))
    unfolding meta get
    review_meta found = returns-bind (returns-author a.actor) λ _ _. (_, refl)

    review_body :
        (found : Items × Bool)
        → Returns (each (disposition_line P) (to_list found.0))
        → Returns (render_security_review P (review_of found))
    unfolding render_security_review get item
    review_body found lines =
        returns-bind (review_meta found) λ _ _. returns-bind lines λ _ _. (_, refl)

    -- Every security review that the pipeline compiles from a threat model can be written as Markdown.
    pub render_artifact-build_security_review :
        (review : Fields) (source : String)
        → build_security_review P a threat_model ≡ ok review
        → Returns (render_artifact P review source)
    unfolding build_security_review lookup get
    render_artifact-build_security_review review source e =
        let (risks, _, e1) = >>=-eq-ok (risks_of P threat_model) _ e in
        let (found, f, e2) = >>=-eq-ok (dispositions P risks) _ e1 in
        subst (λ r. Returns (render_artifact P r source)) (ok-injective (review_of found) review e2)
          ((links_decide P (review_of found) source (render_security_review P)
              (cons (obj (field "rel" (str "threat") (field "href" (str a.threat_model_href) end)))
                nil)
              (dispatch_lem P (review_of found) "security-review" refl)
              (review_body found (entries_return risks found f)) refl refl).1
            (
              record {
                fields = field "rel" (str "threat") (field "href" (str a.threat_model_href) end);
                is_dict = refl;
                rel = str "threat";
                has_rel = refl;
                href = str a.threat_model_href;
                has_href = refl;
              },
              tt,
            ))
