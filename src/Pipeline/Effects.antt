-- ===== src/Pipeline/Effects.antt =====
-- What a pipeline does to the world of the tools and to the provider of the model.
use ai_dev_project.Prelude.{
  String, ◌≡◌, ◌==◌, if◌then◌else◌, ◌∙◌, ap, sym, inl, inr, some, [], is_empty→nil, arith,
  Option-cases, Bool-cases,
}
use ai_dev_project.Prelude.Dict.{Dict, lookup, put, lookup-put}
use ai_dev_project.Python.{Result, ok, Result-cases, ok-injective}
use ai_dev_project.Json.{obj, Fields, end, field}
use ai_dev_project.Platform.{Platform}
use ai_dev_project.Artifacts.{validate_artifact}
use ai_dev_project.Tools.Registry.{ToolSpec}
use ai_dev_project.Tools.Effects.{lift}
use ai_dev_project.Runner.Executor.{Request}
use ai_dev_project.Runner.Executor.Gates
use ai_dev_project.Runner.Executor.Mediation.{world-execute}
use ai_dev_project.Skills.Base.{Skill}
use ai_dev_project.Skills.Contract.{SkillRequest}
use ai_dev_project.Skills.Runner.Mediation
use ai_dev_project.Skills.Runner.Mediation.{prompt_of, provider-run_skill}
use ai_dev_project.Pipeline.Contract.{Pipeline, PipelineState, write_request, given_id}
use ai_dev_project.Pipeline.Calls.{
  Call, ◌>>=◌, pure, gets, next_artifact_id, next_decision_id, next_evidence_id, add_written,
  issue_token_for, call_executor, call_runner, require_valid, persist, idea_id,
}
use ai_dev_project.Pipeline.Sequence.{IsPreorder, Relates, Relates-lift, Relates->>=}
use ai_dev_project.Pipeline.Run.{run}

module _ (P : Platform) {W L : Type 0} (p : Pipeline W L) where
  -- One act of a pipeline. Either an admitted tool is run for the call that writes a document, which
  -- fits its schema; or the model is asked for an admitted skill. Both are calls of the pipeline's run.
  pub data Effect : W × L → W × L → Type 0 where
    write :
        (q : Request) (spec : ToolSpec W) (document : Fields) (w w' : W) (l : L)
        → Gates.Admits P p.executor q spec
        → q.run_id ≡ p.run_id
        → q.tool ≡ "write_artifact"
        → q.args ≡ field "document" (obj document) end
        → validate_artifact p.schemas document ≡ ok []
        → w' ≡ (spec.handler q.args w).1
        → Effect (w, l) (w', l)
    ask :
        (q : SkillRequest) (skill : Skill) (context : Fields) (w : W) (l l' : L)
        → Mediation.Admits P p.runner q skill context
        → q.run_id ≡ p.run_id
        → l' ≡ (p.runner.llm (prompt_of P p.runner q skill context) l).1
        → Effect (w, l) (w, l')

  pub data Effects (a : W × L) : W × L → Type 0 where
    none_done : Effects a a
    then_done : {b c : W × L} → Effects a b → Effect b c → Effects a c

  Effects-trans : {a b c : W × L} → Effects a b → Effects b c → Effects a c
  Effects-trans first none_done = first
  Effects-trans first (then_done rest e) = then_done (Effects-trans first rest) e

  abbrev pub acted_on : PipelineState W L → W × L
  acted_on s = (s.world, s.provider)

  -- Every document of the dict fits its schema.
  abbrev pub AllValid : Dict Fields → Type 0
  AllValid written =
      (artifact_id : String) (document : Fields)
      → lookup artifact_id written ≡ some document
      → validate_artifact p.schemas document ≡ ok []

  abbrev pub Permitted : PipelineState W L → PipelineState W L → Type 0
  Permitted s t = Effects (acted_on s) (acted_on t) × (AllValid s.written → AllValid t.written)

  -- A step that acts on nothing and writes nothing.
  abbrev pub unchanged : (s : PipelineState W L) → Permitted s s
  unchanged s = (none_done, λ valid. valid)

  pub order : IsPreorder Permitted
  order = record {
    same = unchanged;
    compose = λ s t u first rest. (Effects-trans first.0 rest.0, λ valid. rest.1 (first.1 valid));
  }

  pub lifted : {A : Type 0} (r : Result A) → Relates Permitted (lift {W = PipelineState W L} r)
  lifted r = Relates-lift Permitted order r

  pub Relates-next_artifact_id :
      (kind : String) → Relates Permitted (next_artifact_id {W = W} {L = L} kind)
  unfolding next_artifact_id
  Relates-next_artifact_id kind = record { relates = λ s. unchanged s }

  pub Relates-next_decision_id : Relates Permitted (next_decision_id {W = W} {L = L})
  unfolding next_decision_id
  Relates-next_decision_id = record { relates = λ s. unchanged s }

  pub Relates-next_evidence_id : Relates Permitted (next_evidence_id {W = W} {L = L})
  unfolding next_evidence_id
  Relates-next_evidence_id = record { relates = λ s. unchanged s }

  pub Relates-issue_token_for :
      (tool scope : String) → Relates Permitted (issue_token_for P p tool scope)
  unfolding issue_token_for
  Relates-issue_token_for tool scope = record { relates = λ s. unchanged s }

  pub Relates-idea_id : (idea : Fields) → Relates Permitted (idea_id P p idea)
  unfolding idea_id
  Relates-idea_id idea = elim (Option-cases (given_id idea)) [
    | inl e ↦ rw (e, idea_id) (Relates-next_artifact_id "idea")
    | inr (v, e) ↦ rw (e, idea_id) (record { relates = λ s. unchanged s })
  ]

  valid_of :
      (document : Fields) (s : PipelineState W L) (u : Unit {0})
      → (require_valid P p document s).0 ≡ ok u
      → validate_artifact p.schemas document ≡ ok []
  unfolding require_valid ◌>>=◌
  valid_of document s u h = elim (Result-cases (validate_artifact p.schemas document)) [
    | inr (e, v) ↦ ground (arith, v)
    | inl (errors, v) ↦ v ∙ ap ok (is_empty→nil errors (ground (arith, v)))
  ]

  pub Relates-require_valid : (document : Fields) → Relates Permitted (require_valid P p document)
  unfolding require_valid
  Relates-require_valid document = Relates->>= Permitted order (lifted _) (λ s errors e. lifted _)

  pub Relates-call_executor :
      (q : Request) (document : Fields)
      → q.run_id ≡ p.run_id
      → q.tool ≡ "write_artifact"
      → q.args ≡ field "document" (obj document) end
      → validate_artifact p.schemas document ≡ ok []
      → Relates Permitted (call_executor P p q)
  unfolding call_executor
  Relates-call_executor q document run tool args valid = record {
    relates = λ s.
        elim (world-execute P p.executor q (record { store = s.store; world = s.world })) [
          | inl kept ↦ (rw kept none_done, λ valid. valid)
          | inr (spec, a, e) ↦ (
            then_done none_done
                (write q spec document s.world _ s.provider a run tool args valid e),
            λ h. h,
          )
        ];
  }

  pub Relates-call_runner :
      (q : SkillRequest) → q.run_id ≡ p.run_id → Relates Permitted (call_runner P p q)
  unfolding call_runner
  Relates-call_runner q run = record {
    relates = λ s.
        elim (provider-run_skill P p.runner q (record { store = s.store; provider = s.provider })) [
          | inl kept ↦ (rw kept none_done, λ valid. valid)
          | inr (skill, context, a, e) ↦
              (then_done none_done (ask q skill context s.world s.provider _ a run e), λ h. h)
        ];
  }

  pub seq :
      {A B : Type 0} {m : Call W L A} {f : A → Call W L B}
      → Relates Permitted m
      → ((s : PipelineState W L) (a : A) → (m s).0 ≡ ok a → Relates Permitted (f a))
      → Relates Permitted (m >>= f)
  seq first rest = Relates->>= Permitted order first rest

  -- The same, where the rest uses nothing of what was returned.
  pub chain :
      {A B : Type 0} {m : Call W L A} {f : A → Call W L B}
      → Relates Permitted m
      → ((a : A) → Relates Permitted (f a))
      → Relates Permitted (m >>= f)
  chain first rest = seq first λ s a e. rest a

  pub Relates-pure : {A : Type 0} (a : A) → Relates Permitted (pure {S = PipelineState W L} a)
  Relates-pure a = record { relates = λ s. unchanged s }

  pub Relates-gets : {A : Type 0} (f : PipelineState W L → A) → Relates Permitted (gets f)
  Relates-gets f = record { relates = λ s. unchanged s }

  AllValid-put :
      (artifact_id : String) (document : Fields) (written : Dict Fields)
      → validate_artifact p.schemas document ≡ ok []
      → AllValid written
      → AllValid (put artifact_id document written)
  AllValid-put artifact_id document written fits valid other found h =
      let at_other : (if artifact_id == other then some document else lookup other written)
          ≡ some found =
        sym (lookup-put artifact_id other document written) ∙ h in
      elim (Bool-cases (artifact_id == other)) [
        | inl e ↦ ground (arith, e)
        | inr e ↦ valid other found (ground (arith, e))
      ]

  Relates-add_written :
      (artifact_id : String) (document : Fields)
      → validate_artifact p.schemas document ≡ ok []
      → Relates Permitted (add_written {W = W} {L = L} artifact_id document)
  unfolding add_written
  Relates-add_written artifact_id document fits = record {
    relates = λ s. (none_done, AllValid-put artifact_id document s.written fits);
  }

  pub Relates-persist :
      (kind artifact_id : String) (document : Fields)
      → Relates Permitted (persist P p kind artifact_id document)
  unfolding persist
  Relates-persist kind artifact_id document = seq (Relates-require_valid document) λ s u v.
      chain (Relates-issue_token_for "write_artifact" "workspace") λ token.
        chain Relates-next_decision_id λ decision_id. chain Relates-next_evidence_id λ evidence_id.
          seq (Relates-gets (write_request p token document decision_id evidence_id)) λ t q e.
            let same =
              ok-injective (write_request p token document decision_id evidence_id t) q e in
            chain
              (Relates-call_executor q document (ap (λ (r : Request). r.run_id) (sym same))
                (ap (λ (r : Request). r.tool) (sym same)) (ap (λ (r : Request). r.args) (sym same))
                (valid_of document s u v))
              λ result. chain (lifted _) λ _.
                chain (Relates-add_written artifact_id document (valid_of document s u v))
                  λ _. Relates-pure _
