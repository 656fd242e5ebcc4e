-- ===== src/Artifacts/Render/Stored.antt =====
-- The documents that the control plane stores are the ones that artifacts/render.py can write.
use ai_dev_project.Prelude.{
  String, ◌≡◌, refl, ◌↔◌, Option, none, some, List, [], ◌∷◌, Each, arith, if◌then◌else◌,
}
use ai_dev_project.Prelude.Dict.{lookup}
use ai_dev_project.Python.{ok, ◌>>=◌, >>=-eq-ok}
use ai_dev_project.Json.{
  Value, null, str, arr, obj, Fields, get, get_or, insert, item, to_list, strs,
}
use ai_dev_project.Platform.{Platform}
use ai_dev_project.Trust.{tier_value}
use ai_dev_project.Evidence.Record.{RecordArgs, build_evidence_record, compression_entry}
use ai_dev_project.Policy.Client.{PolicyResult}
use ai_dev_project.Policy.Decision.{DecisionArgs, build_policy_decision}
use ai_dev_project.Evidence.Compression.{CompressionResult}
use ai_dev_project.Artifacts.Render.{shown_at, each, need_text, ticked_commas}
use ai_dev_project.Artifacts.Render.Records.{
  render_evidence_record, render_policy_decision, compression_lines,
}
use ai_dev_project.Artifacts.Render.Dispatch.{render_artifact}
use ai_dev_project.Artifacts.Render.Outcome.{links_decide, dispatch_lem}
use ai_dev_project.Pipeline.{ReviewArgs, build_security_review}
use ai_dev_project.Artifacts.Render.Compiled.{render_artifact-build_security_review}
use ai_dev_project.Artifacts.Render.Totality.{
  Returns, Readable, returns-bind, returns-bind_at, returns-shown_at, returns-meta, links_value,
}

module _ (P : Platform) where
  returns-compression :
      (o : Option CompressionResult)
      → Returns (compression_lines P (elim o [ none ↦ null | some c ↦ obj (compression_entry c) ]))
  returns-compression none = (_, refl)
  returns-compression (some c) = (_, refl)

  module _ (a : RecordArgs) where
    abbrev record_of : Fields
    record_of = build_evidence_record a

    id-record : get record_of "id" ≡ some (str a.artifact_id)
    unfolding build_evidence_record insert get
    id-record = ground arith

    links-record : get_or record_of "links" null ≡ links_value P a.links
    unfolding build_evidence_record insert get
    links-record = ground arith

    compression-record :
        get_or record_of "compression" null
        ≡ elim a.compression as (λ _. Value) [ none ↦ null | some c ↦ obj (compression_entry c) ]
    unfolding build_evidence_record insert get
    compression-record = ground arith

    body-record : Returns (render_evidence_record P record_of)
    unfolding render_evidence_record build_evidence_record insert get
    body-record = returns-bind (returns-shown_at P record_of "id" id-record) λ _ _.
        returns-bind (returns-meta P record_of (ground arith)) λ _ _.
          returns-bind (returns-shown_at P record_of "action" {v = str a.action} (ground arith))
            λ _ _.
              returns-bind
                (returns-shown_at P record_of "trust_tier" {v = str (tier_value a.trust_tier)}
                  (ground arith))
                λ _ _.
                  returns-bind
                    (returns-shown_at P record_of "sensitivity" {v = str a.sensitivity}
                      (ground arith))
                    λ _ _.
                      returns-bind {m = compression_lines P (get_or record_of "compression" null)}
                        (rw compression-record (returns-compression a.compression)) λ _ _. (_, refl)

    record_iff :
        (source : String)
        → Returns (render_artifact P record_of source) ↔ Each Readable (to_list a.links)
    unfolding build_evidence_record insert get lookup
    record_iff source =
        links_decide P record_of source (render_evidence_record P) a.links
          (dispatch_lem P record_of "evidence-record" (ground arith)) body-record links-record
          (ground arith)

  texts_strs : (codes : List String) → each need_text (to_list (strs codes)) ≡ ok codes
  unfolding each
  texts_strs [] = refl
  texts_strs (code ∷ codes) = rw (texts_strs codes) refl

  module _ (r : PolicyResult) (a : DecisionArgs) where
    abbrev decision_of : Fields
    decision_of = build_policy_decision r a

    returns-ticked : Returns (ticked_commas (arr (strs r.reason_codes)))
    returns-ticked = returns-bind_at _ _ r.reason_codes (texts_strs r.reason_codes) (_, refl)

    returns-codes : Returns (item decision_of "reason_codes" >>= ticked_commas)
    unfolding item build_policy_decision insert get
    returns-codes =
        returns-bind_at (item decision_of "reason_codes") ticked_commas (arr (strs r.reason_codes))
          (ground arith) returns-ticked

    text_at :
        (key : String) (v : Value)
        → get decision_of key ≡ some v
        → Returns (shown_at P (obj decision_of) key)
    text_at key v e = returns-shown_at P decision_of key e

    body-decision : Returns (render_policy_decision P decision_of)
    unfolding render_policy_decision build_policy_decision insert get
    body-decision = returns-bind (text_at "id" (str a.artifact_id) (ground arith)) λ _ _.
        returns-bind (returns-meta P decision_of (ground arith)) λ _ _.
          returns-bind (text_at "point" (str a.point) (ground arith)) λ _ _.
            returns-bind
              (text_at "decision" (str (if r.allow then "allow" else "deny")) (ground arith))
              λ _ _. returns-bind returns-codes λ _ _.
                returns-bind
                  (text_at "policy_bundle_version" (str r.policy_bundle_version) (ground arith))
                  λ _ _.
                    returns-bind (text_at "input_digest" (str r.input_digest) (ground arith))
                      λ _ _. (_, refl)

    links-decision : get_or decision_of "links" null ≡ links_value P a.links
    unfolding build_policy_decision insert get
    links-decision = ground arith

    decision_iff :
        (source : String)
        → Returns (render_artifact P decision_of source) ↔ Each Readable (to_list a.links)
    unfolding build_policy_decision insert get lookup
    decision_iff source =
        links_decide P decision_of source (render_policy_decision P) a.links
          (dispatch_lem P decision_of "policy-decision" (ground arith)) body-decision links-decision
          (ground arith)

  review_iff :
      (c : ReviewArgs) (threat_model : Fields) (source : String)
      → Returns
          (build_security_review P c threat_model >>= λ review. render_artifact P review source)
        ↔ Returns (build_security_review P c threat_model)
  review_iff c threat_model source = (
    λ (t, e).
        let (review, b, _) = >>=-eq-ok (build_security_review P c threat_model) _ e in (review, b),
    λ built.
        returns-bind built
          λ review b. render_artifact-build_security_review P c threat_model review source b,
  )

  -- An evidence record or a policy decision that the control plane builds can be written as Markdown
  -- exactly if each of its links is a dict with a relation and a reference; a security review that the
  -- pipeline compiles from a threat model always can.
  pub render_artifact_iff :
      (a : RecordArgs) (r : PolicyResult) (b : DecisionArgs) (c : ReviewArgs)
      (threat_model : Fields) (source : String)
      → (Returns (render_artifact P (build_evidence_record a) source)
          ↔ Each Readable (to_list a.links))
        × (Returns (render_artifact P (build_policy_decision r b) source)
            ↔ Each Readable (to_list b.links))
        × (Returns
              (build_security_review P c threat_model >>= λ review. render_artifact P review source)
            ↔ Returns (build_security_review P c threat_model))
  render_artifact_iff a r b c threat_model source =
      (record_iff a source, decision_iff r b source, review_iff c threat_model source)
