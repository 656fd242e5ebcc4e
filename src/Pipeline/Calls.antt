-- ===== src/Pipeline/Calls.antt =====
-- pipeline/orchestrator.py: the steps of a pipeline, which change its state and may raise.
use ai_dev_project.Prelude.{String, ◌+◌, not, none, some, List, is_empty, if◌then◌else◌}
use ai_dev_project.Prelude.Dict.{put}
use ai_dev_project.Prelude.Int.{pos}
use ai_dev_project.Prelude.Text.{◌<>◌, decimal4}
use ai_dev_project.Python.{Result, ok, raised, raise_if, pipeline_error}
use ai_dev_project.Json.{Fields, to_text}
use ai_dev_project.Platform.{Platform}
use ai_dev_project.Artifacts.{validate_artifact}
use ai_dev_project.Tools.Effects.{Act, and_then, lift}
use ai_dev_project.Runner.Registry.{issue, default_ttl_seconds}
use ai_dev_project.Runner.Executor.{Request, ExecutionResult, execute}
use ai_dev_project.Skills.Base.{ContextInput, get_skill, add_links}
use ai_dev_project.Skills.Contract.{SkillRequest, SkillRunResult}
use ai_dev_project.Skills.Runner.{run_skill}
use ai_dev_project.Pipeline.Contract.{
  Pipeline, PipelineState, StageResult, prefix_of, count_of, given_id, write_request, skill_request,
}

-- Shut, so that a lemma on a sequence finds its parts.
infixl 5 ◌>>=◌ ◌>>◌
unfoldable pub ◌>>=◌ : {S A B : Type 0} → Act S A → (A → Act S B) → Act S B
m >>= f = and_then m f

abbrev pub ◌>>◌ : {S B : Type 0} → Act S (Unit {0}) → Act S B → Act S B
m >> k = m >>= λ _. k

abbrev pub pure : {S A : Type 0} → A → Act S A
pure a s = (ok a, s)

abbrev pub gets : {S A : Type 0} → (S → A) → Act S A
gets f s = (ok (f s), s)

abbrev pub Call : Type 0 → Type 0 → Type 0 → Type 0
Call W L A = Act (PipelineState W L) A

module _ {W L : Type 0} where
  -- `_artifact_id`
  unfoldable pub next_artifact_id : String → Call W L String
  next_artifact_id kind s =
      let n = count_of kind s.counters + 1 in
      (
        elim (prefix_of kind) [
          | raised e ↦ raised e
          | ok prefix ↦ ok (prefix <> ("-" <> decimal4 n))
        ],
        record s { counters = put kind n s.counters },
      )

  unfoldable pub next_decision_id : Call W L String
  next_decision_id s =
      let n = s.decision_seq + 1 in (ok ("PD-" <> decimal4 n), record s { decision_seq = n })

  unfoldable pub next_evidence_id : Call W L String
  next_evidence_id s =
      let n = s.evidence_seq + 1 in (ok ("EV-" <> decimal4 n), record s { evidence_seq = n })

  -- `self._written[artifact_id] = dict(document)`
  unfoldable pub add_written : String → Fields → Call W L (Unit {0})
  add_written artifact_id document s =
      (ok tt, record s { written = put artifact_id document s.written })

module _ (P : Platform) {W L : Type 0} (p : Pipeline W L) where
  -- A token for the call that comes next.
  unfoldable pub issue_token_for : String → String → Call W L String
  issue_token_for tool scope s = (
    issue P p.capabilities p.run_id tool scope (pos default_ttl_seconds)
        (p.issued_at (s.decision_seq + 1)),
    s,
  )

  unfoldable pub call_executor : Request → Call W L ExecutionResult
  call_executor q s =
      let (r, t) = execute P p.executor q (record { store = s.store; world = s.world }) in
      (r, record s { store = t.store; world = t.world })

  unfoldable pub call_runner : SkillRequest → Call W L SkillRunResult
  call_runner q s =
      let (r, t) = run_skill P p.runner q (record { store = s.store; provider = s.provider }) in
      (r, record s { store = t.store; provider = t.provider })

  -- `if errors: raise PipelineError`
  unfoldable pub require_valid : Fields → Call W L (Unit {0})
  require_valid document = do
    errors ← lift (validate_artifact p.schemas document)
    lift (raise_if (not (is_empty errors)) pipeline_error)

  -- `_persist`
  unfoldable pub persist : String → String → Fields → Call W L StageResult
  persist kind artifact_id document = do
    require_valid document
    token ← issue_token_for "write_artifact" "workspace"
    decision_id ← next_decision_id
    evidence_id ← next_evidence_id
    q ← gets (write_request p token document decision_id evidence_id)
    result ← call_executor q
    lift (raise_if (not result.allowed) pipeline_error)
    add_written artifact_id document
    pure (record {
      stage = kind;
      artifact_type = kind;
      artifact_id = artifact_id;
      decision = result.decision;
      evidence = result.evidence;
    })

  -- `if not result.allowed or result.artifact is None: raise PipelineError`
  abbrev pub artifact_of : SkillRunResult → Result Fields
  artifact_of result = elim result.artifact [
    | none ↦ raised pipeline_error
    | some artifact ↦ if result.allowed then ok artifact else raised pipeline_error
  ]

  -- `_skill`
  unfoldable pub run_stage :
      String → String → List ContextInput → Fields → List Fields → Call W L (StageResult × Fields)
  run_stage skill_name kind inputs bindings links = do
    skill ← lift (get_skill skill_name p.skills)
    artifact_id ← next_artifact_id kind
    token ← issue_token_for skill.tool_name "skills"
    decision_id ← next_decision_id
    evidence_id ← next_evidence_id
    q ← gets (skill_request p token skill_name inputs bindings artifact_id decision_id evidence_id)
    result ← call_runner q
    artifact ← lift (artifact_of result)
    document ← lift (add_links P artifact links)
    stage ← persist kind artifact_id document
    pure (stage, document)

  -- `str(idea.get("id") or self._artifact_id("idea"))`
  unfoldable pub idea_id : Fields → Call W L String
  idea_id idea = elim (given_id idea) [
    | none ↦ next_artifact_id "idea"
    | some v ↦ pure (to_text P.repr v)
  ]
