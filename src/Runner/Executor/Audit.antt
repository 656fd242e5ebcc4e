-- ===== src/Runner/Executor/Audit.antt =====
-- The evidence that an execution of runner/executor.py leaves.
use ai_dev_project.Prelude.{
  String, ◌≡◌, ◌⊎◌, inl, inr, ◌∙◌, sym, ap, refl, true, false, Option, none, some,
}
use ai_dev_project.Prelude.Text.{◌<>◌, utf8}
use ai_dev_project.Python.{Result, Exn, ok, raised}
use ai_dev_project.Json.{Value, str, obj, Fields, end, field, get, get_or, to_text}
use ai_dev_project.Platform.{Platform}
use ai_dev_project.Evidence.Store.{EvidenceStore, resolve, store_bytes}
use ai_dev_project.Evidence.Output.{outcome}
use ai_dev_project.Evidence.Record.{
  digest-build_evidence_record, decision_ref-build_evidence_record,
}
use ai_dev_project.Evidence.Recovery.{resolve-handle, read_bytes-store_bytes}
use ai_dev_project.Policy.Client.{PolicyResult}
use ai_dev_project.Policy.Decision.{id-build_policy_decision}
use ai_dev_project.Tools.Registry.{ToolSpec}
use ai_dev_project.Runner.Executor.{
  RunnerExecutor, Request, State, ExecutionResult, decision_of, audit_text, audit_args, deny,
  executed, call_handler, execute,
}
use ai_dev_project.Runner.Executor.Endings.{record_call_lem, call_handler-cases}
use ai_dev_project.Runner.Executor.Mediation.{course, stopped, refused, ran}

module _ (P : Platform) (q : Request) where
  -- The store holds, under its digest, the text that names the tool, the arguments and the detail; the
  -- evidence record has that digest, and it refers to the policy decision.
  pub record Audited (decision detail evidence : Fields) (store : EvidenceStore) : Type 0 where
    pub recoverable :
        resolve ("sha256:" <> P.sha256 (utf8 (audit_text P q detail))) store
        ≡ ok (utf8 (audit_text P q detail))
    pub digest :
        get evidence "artifact_digest" ≡ some (str (P.sha256 (utf8 (audit_text P q detail))))
    pub decision_ref : get evidence "policy_decision_ref" ≡ get decision "id"

  -- The detail is the reason of the denial, or the output of the tool.
  pub data Shows (e : ExecutionResult) : Fields → Type 0 where
    denial : e.allowed ≡ false → Shows e (field "denied" (str e.reason) end)
    success :
        (output : Fields)
        → e.allowed ≡ true
        → e.output ≡ some output
        → Shows e (field "output" (obj output) end)

  -- The call returned, and its evidence is in the store of the state that it left.
  abbrev pub IsAudited : {W : Type 0} → Result ExecutionResult × State W → Type 0
  IsAudited {W} r =
      (e : ExecutionResult) × (s : State W) × (r ≡ (ok e, s))
      × (detail : Fields) × Shows e detail
      × Audited e.decision detail e.evidence s.store

  module _ {W : Type 0} (x : RunnerExecutor W) (actor : Fields) (result : PolicyResult) where
    ref_lem : to_text P.repr (get_or (decision_of P q actor result) "id" (str "")) ≡ q.decision_id
    unfolding to_text
    ref_lem =
        ap (λ (o : Option Value). to_text P.repr (elim o [ none ↦ str "" | some v ↦ v ]))
          (id-build_policy_decision result _)

    Audited-record_call :
        (detail : Fields) (s : State W)
        → Audited
            (decision_of P q actor result)
            detail
            (outcome P
              (audit_text P q detail)
              (audit_args P q actor (decision_of P q actor result))).evidence
            (store_bytes P (utf8 (audit_text P q detail)) s.store).1
    Audited-record_call detail s = record {
      recoverable =
          rw resolve-handle (read_bytes-store_bytes P (utf8 (audit_text P q detail)) s.store);
      digest = digest-build_evidence_record _ _ refl;
      decision_ref =
          decision_ref-build_evidence_record _ _ (ap some ref_lem)
          ∙ sym (id-build_policy_decision result _);
    }

    deny-IsAudited :
        (reason : String) (s : State W)
        → IsAudited (deny P x q actor (decision_of P q actor result) reason s)
    unfolding deny
    deny-IsAudited reason s =
        let detail : Fields = field "denied" (str reason) end in
        rw (record_call_lem P x q actor (decision_of P q actor result) detail s)
          (_, _, refl, detail, denial refl, Audited-record_call detail s)

    executed-IsAudited :
        (output : Fields) (s : State W)
        → IsAudited (executed P x q actor (decision_of P q actor result) output s)
    unfolding executed
    executed-IsAudited output s =
        let detail : Fields = field "output" (obj output) end in
        rw (record_call_lem P x q actor (decision_of P q actor result) detail s)
          (_, _, refl, detail, success output refl refl, Audited-record_call detail s)

    call_handler-IsAudited :
        (spec : ToolSpec W) (s : State W)
        → IsAudited (call_handler P x q actor (decision_of P q actor result) spec s)
    call_handler-IsAudited spec s =
        elim (call_handler-cases P x q actor (decision_of P q actor result) spec s) [
          | inl (reason, e) ↦ rw e (deny-IsAudited reason _)
          | inr (output, e) ↦ rw e (executed-IsAudited output _)
        ]

  -- An execution raises and changes nothing, or it returns. Then, denied or not, the store can give
  -- back the text that names the tool, the arguments, and the reason of the denial or the output; the
  -- evidence record has the digest of that text and refers to the policy decision.
  pub execute-IsAudited :
      {W : Type 0} (x : RunnerExecutor W) (s : State W)
      → ((fault : Exn) × (execute P x q s ≡ (raised fault, s))) ⊎ IsAudited (execute P x q s)
  execute-IsAudited x s = elim (course P x q s) [
    | stopped fault c ↦ inl (fault, c)
    | refused actor result reason c ↦ inr (rw c (deny-IsAudited x actor result reason s))
    | ran spec a c ↦ inr (rw c (call_handler-IsAudited x a.run.actor a.result spec s))
  ]
