-- ===== src/Pipeline/Stages.antt =====
-- pipeline/orchestrator.py: what a stage that returned has done.
use ai_dev_project.Prelude.{
  String, ◌≡◌, ◌∙◌, sym, ap, refl, Bool, true, false, not, some, List, arith, inl, inr, Bool-cases,
  Option-cases,
}
use mathlib.Core.Path.{subst}
use ai_dev_project.Python.{Result, ok, raise_if, pipeline_error, ok-injective}
use ai_dev_project.Json.{obj, Fields, field, end, Value, get, truthy, to_text}
use ai_dev_project.Platform.{Platform}
use ai_dev_project.Tools.Effects.{Act, lift, and_then-eq-ok}
use ai_dev_project.Runner.Executor.{Request, State, ExecutionResult, execute}
use ai_dev_project.Skills.Base.{ContextInput, add_links}
use ai_dev_project.Skills.Contract.{SkillRequest, SkillState, SkillRunResult}
use ai_dev_project.Skills.Runner.{run_skill}
use ai_dev_project.Pipeline.Contract.{Pipeline, StageResult, write_request, skill_request, given_id}
use ai_dev_project.Pipeline.Calls.{
  ◌>>=◌, gets, artifact_of, call_executor, call_runner, persist, run_stage, idea_id,
}

-- What a call that returned has made sure of, for its result and the state that it left.
pub record Ensures {S A : Type 0} (m : Act S A) (Q : A → S → Type 0) : Type 0 where
  pub ensures : (s : S) (a : A) → (m s).0 ≡ ok a → Q a (m s).1

module _ {S A B : Type 0} (m : Act S A) (f : A → Act S B) (Q : A → Type 0)
    (R : B → S → Type 0) where
  ensures-seq :
      Ensures m (λ a _. Q a)
      → ((a : A) → Q a → Ensures (f a) R)
      → (s : S) (b : B) → ((m >>= f) s).0 ≡ ok b
      → R b ((m >>= f) s).1
  unfolding ◌>>=◌
  ensures-seq first rest s b h =
      let (a, e, h', world) = and_then-eq-ok m f s h in
      subst (R b) (sym world) ((rest a (first.ensures s a e)).ensures (m s).1 b h')

pub Ensures-seq :
    {S A B : Type 0} {m : Act S A} {f : A → Act S B} (Q : A → Type 0) {R : B → S → Type 0}
    → Ensures m (λ a _. Q a)
    → ((a : A) → Q a → Ensures (f a) R)
    → Ensures (m >>= f) R
Ensures-seq {m = m} {f = f} Q {R = R} first rest = record {
  ensures = ensures-seq m f Q R first rest;
}

-- The same, where the first part ensures nothing that is needed.
pub Ensures-last :
    {S A B : Type 0} (m : Act S A) {f : A → Act S B} {R : B → S → Type 0}
    → ((a : A) → Ensures (f a) R)
    → Ensures (m >>= f) R
Ensures-last m rest = Ensures-seq (λ _. Unit {0}) (record { ensures = λ s a h. tt }) (λ a _. rest a)

pub Ensures-lift : {S A : Type 0} (m : Result A) → Ensures {S = S} (lift m) (λ a _. m ≡ ok a)
Ensures-lift m = record { ensures = λ s a h. h }

Ensures-gets : {S A : Type 0} (f : S → A) → Ensures (gets f) (λ a _. (s : S) × (a ≡ f s))
Ensures-gets f = record { ensures = λ s a h. (s, sym (ok-injective (f s) a h)) }

raise_if_allowed :
    (allowed : Bool) {u : Unit {0}} → raise_if (not allowed) pipeline_error ≡ ok u → allowed ≡ true
raise_if_allowed true h = refl
raise_if_allowed false h = ground arith

module _ (P : Platform) {W L : Type 0} (p : Pipeline W L) where
  -- A stage of the kind, noted for the document that an allowed call of `write_artifact` was given.
  pub record Persisted (kind artifact_id : String) (document : Fields) (r : StageResult)
      : Type 0 where
    pub request : Request
    pub before : State W
    pub result : ExecutionResult
    pub returned : (execute P p.executor request before).0 ≡ ok result
    pub allowed : result.allowed ≡ true
    pub of_run : request.run_id ≡ p.run_id
    pub of_tool : request.tool ≡ "write_artifact"
    pub given : request.args ≡ field "document" (obj document) end
    pub told : r ≡ record {
      stage = kind;
      artifact_type = kind;
      artifact_id = artifact_id;
      decision = result.decision;
      evidence = result.evidence;
    }

  -- A stage whose document is the artifact of an allowed run of the skill on the inputs and with the
  -- bindings, to which the links were added, persisted under the id that the skill was given.
  pub record Ran (skill_name kind : String) (inputs : List ContextInput) (bindings : Fields)
      (links : List Fields) (r : StageResult × Fields) : Type 0 where
    pub request : SkillRequest
    pub before : SkillState L
    pub result : SkillRunResult
    pub artifact : Fields
    pub returned : (run_skill P p.runner request before).0 ≡ ok result
    pub allowed : result.allowed ≡ true
    pub answered : result.artifact ≡ some artifact
    pub linked : add_links P artifact links ≡ ok r.1
    pub of_run : request.run_id ≡ p.run_id
    pub of_skill : request.skill_name ≡ skill_name
    pub given : request.inputs ≡ inputs
    pub bound : request.bindings ≡ bindings
    pub persisted : Persisted kind request.artifact_id r.1 r.0

  artifact_of_lem :
      (result : SkillRunResult) (artifact : Fields)
      → artifact_of P p result ≡ ok artifact
      → (result.allowed ≡ true) × (result.artifact ≡ some artifact)
  artifact_of_lem result artifact h = elim (Option-cases result.artifact) [
    | inl n ↦ ground (arith, rw n at h)
    | inr (v, g) ↦ elim (Bool-cases result.allowed) [
      | inl t ↦ (t, g ∙ ap some (ok-injective v artifact (rw t at (rw g at h))))
      | inr f ↦ ground (arith, rw f at (rw g at h))
    ]
  ]

  Ensures-call_executor :
      (q : Request)
      → Ensures
          (call_executor P p q)
          (λ result _. (t : State W) × ((execute P p.executor q t).0 ≡ ok result))
  unfolding call_executor
  Ensures-call_executor q = record {
    ensures = λ s a h. (record { store = s.store; world = s.world }, h);
  }

  Ensures-call_runner :
      (q : SkillRequest)
      → Ensures
          (call_runner P p q)
          (λ result _. (t : SkillState L) × ((run_skill P p.runner q t).0 ≡ ok result))
  unfolding call_runner
  Ensures-call_runner q = record {
    ensures = λ s a h. (record { store = s.store; provider = s.provider }, h);
  }

  pub Ensures-persist :
      (kind artifact_id : String) (document : Fields)
      → Ensures
          (persist P p kind artifact_id document)
          (λ r _. Persisted kind artifact_id document r)
  unfolding persist
  Ensures-persist kind artifact_id document = Ensures-last _ λ _. Ensures-last _ λ token.
      Ensures-last _ λ decision_id. Ensures-last _ λ evidence_id.
        Ensures-seq _ (Ensures-gets (write_request p token document decision_id evidence_id))
          λ q (s0, e). Ensures-seq _ (Ensures-call_executor q) λ result (t, returned).
            Ensures-seq _ (Ensures-lift (raise_if (not result.allowed) pipeline_error)) λ _ allowed.
              Ensures-last _ λ _. record {
                ensures = λ s r h. record {
                  request = q;
                  before = t;
                  result = result;
                  returned = returned;
                  allowed = raise_if_allowed result.allowed allowed;
                  of_run = ap (λ (q : Request). q.run_id) e;
                  of_tool = ap (λ (q : Request). q.tool) e;
                  given = ap (λ (q : Request). q.args) e;
                  told = sym (ok-injective _ r h);
                };
              }

  pub Ensures-run_stage :
      (skill_name kind : String) (inputs : List ContextInput) (bindings : Fields)
      (links : List Fields)
      → Ensures
          (run_stage P p skill_name kind inputs bindings links)
          (λ r _. Ran skill_name kind inputs bindings links r)
  unfolding run_stage
  Ensures-run_stage skill_name kind inputs bindings links = Ensures-last _ λ _.
      Ensures-last _ λ artifact_id. Ensures-last _ λ token. Ensures-last _ λ decision_id.
        Ensures-last _ λ evidence_id.
          Ensures-seq _
            (Ensures-gets (
              skill_request p token skill_name inputs bindings artifact_id decision_id evidence_id))
            λ q (s0, e). Ensures-seq _ (Ensures-call_runner q) λ result (t, returned).
              Ensures-seq _ (Ensures-lift (artifact_of P p result)) λ artifact answered.
                Ensures-seq _ (Ensures-lift (add_links P artifact links)) λ document linked.
                  Ensures-seq _ (Ensures-persist kind artifact_id document) λ stage persisted.
                    record {
                      ensures = λ s r h.
                          subst (Ran skill_name kind inputs bindings links)
                            (ok-injective (stage, document) r h)
                            (record {
                              request = q;
                              before = t;
                              result = result;
                              artifact = artifact;
                              returned = returned;
                              allowed = (artifact_of_lem result artifact answered).0;
                              answered = (artifact_of_lem result artifact answered).1;
                              linked = linked;
                              of_run = ap (λ (q : SkillRequest). q.run_id) e;
                              of_skill = ap (λ (q : SkillRequest). q.skill_name) e;
                              given = ap (λ (q : SkillRequest). q.inputs) e;
                              bound = ap (λ (q : SkillRequest). q.bindings) e;
                              persisted =
                                  subst
                                    (λ (q : SkillRequest).
                                      Persisted kind q.artifact_id document stage)
                                    (sym e) persisted;
                            });
                    }

  given_id_lem :
      (idea : Fields) (v : Value)
      → get idea "id" ≡ some v
      → truthy v ≡ true
      → given_id idea ≡ some v
  unfolding given_id
  given_id_lem idea v g t = rw (g, given_id) (rw t refl)

  pub Ensures-idea_id :
      (idea : Fields)
      → Ensures
          (idea_id P p idea)
          (λ id _. (v : Value) → get idea "id" ≡ some v → truthy v ≡ true → id ≡ to_text P.repr v)
  unfolding idea_id
  Ensures-idea_id idea = record {
    ensures = λ s id h v g t.
        sym (ok-injective (to_text P.repr v) id (rw (given_id_lem idea v g t, idea_id) at h));
  }
