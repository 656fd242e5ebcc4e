-- ===== src/Pipeline/Contract.antt =====
-- pipeline/orchestrator.py: what a pipeline is made of, its state, and the requests that it makes.
use ai_dev_project.Prelude.{ℕ, String, Option, none, some, List, [], ◌∷◌, if◌then◌else◌}
use ai_dev_project.Prelude.Dict.{Dict, lookup, put}
use ai_dev_project.Prelude.Int.{ℤ}
use ai_dev_project.Prelude.Text.{◌<>◌}
use ai_dev_project.Python.{Result, ok, raised, ◌>>=◌, key_error}
use ai_dev_project.Json.{Value, str, obj, Fields, end, field, get, truthy}
use ai_dev_project.Artifacts.{Schemas}
use ai_dev_project.Evidence.Store.{EvidenceStore}
use ai_dev_project.Runner.Registry.{RunRegistry}
use ai_dev_project.Runner.Executor.{RunnerExecutor, Request}
use ai_dev_project.Skills.Base.{ContextInput, SkillRegistry}
use ai_dev_project.Skills.Contract.{SkillRunner, SkillRequest}
use ai_dev_project.Traceability.{Traceability, Index}

abbrev pub artifact_id_prefix : Dict String
artifact_id_prefix =
    ("idea", "IDEA")
    ∷ ("specification", "SPEC")
    ∷ ("threat-model", "TM")
    ∷ ("plan", "PLAN")
    ∷ ("task", "TASK")
    ∷ ("review", "REV")
    ∷ ("security-review", "SECREV")
    ∷ []

-- `ARTIFACT_ID_PREFIX[kind]`
unfoldable pub prefix_of : String → Result String
prefix_of kind = elim (lookup kind artifact_id_prefix) [
  | none ↦ raised key_error
  | some prefix ↦ ok prefix
]

pub record StageResult : Type 0 where
  pub stage : String
  pub artifact_type : String
  pub artifact_id : String
  pub decision : Fields
  pub evidence : Fields

pub record PipelineResult : Type 0 where
  pub feature_id : String
  pub run_id : String
  pub stages : List StageResult
  pub artifacts : Dict Fields
  pub trace : Traceability

-- `schemas` are those of `validate_artifact`; the runner may have others. `store_path` is the path of an
-- artifact in the store, relative to the root of the repository; it raises outside of the root. The clock
-- is read when a token is issued and when it is checked, `issued_at n` and `checked_at n` for the call
-- that has the number `n`.
pub record Pipeline (W L : Type 0) : Type 0 where
  pub feature_id : String
  pub run_id : String
  pub capabilities : RunRegistry
  pub skills : SkillRegistry
  pub runner : SkillRunner L
  pub executor : RunnerExecutor W
  pub schemas : Schemas
  pub href_prefix : String
  pub store_path : String → Result String
  pub issued_at : ℕ → ℤ
  pub checked_at : ℕ → ℤ

-- The fields of a pipeline that change, and what its runner and its executor act on. Both have the one
-- evidence store, the world of the tools is `W`, and that of the model's provider is `L`.
pub record PipelineState (W L : Type 0) : Type 0 where
  pub created_at : String
  pub counters : Dict ℕ
  pub decision_seq : ℕ
  pub evidence_seq : ℕ
  pub written : Dict Fields
  pub store : EvidenceStore
  pub world : W
  pub provider : L

-- `self._counters.get(kind, 0)`
abbrev pub count_of : String → Dict ℕ → ℕ
count_of kind counters = elim (lookup kind counters) [ none ↦ 0 | some n ↦ n ]

abbrev pub links_to : String → String → List Fields
links_to rel href = field "rel" (str rel) (field "href" (str href) end) ∷ []

-- `idea.get("id")`, if it is not empty
unfoldable pub given_id : Fields → Option Value
given_id idea = elim (get idea "id") [ none ↦ none | some v ↦ if truthy v then some v else none ]

abbrev pub approved : String → Fields → ContextInput
approved name document = record { name = name; document = document; source = "approved_artifact" }

module _ {W L : Type 0} (p : Pipeline W L) where
  -- `_href`
  abbrev pub href : String → String
  href artifact_id = p.href_prefix <> ("/" <> (artifact_id <> ".json"))

  abbrev pub feature_binding : Fields → Fields
  feature_binding rest = field "feature_id" (str p.feature_id) rest

  -- The call of `execute` in `_persist`.
  abbrev pub write_request : String → Fields → String → String → PipelineState W L → Request
  write_request token document decision_id evidence_id s = record {
    run_id = p.run_id;
    token = token;
    tool = "write_artifact";
    args = field "document" (obj document) end;
    scope = "workspace";
    created_at = s.created_at;
    decision_id = decision_id;
    evidence_id = evidence_id;
    resource = "";
    now = p.checked_at s.decision_seq;
  }

  -- The call of the runner in `_skill`.
  abbrev pub skill_request :
      String
      → String
      → List ContextInput
      → Fields
      → String
      → String
      → String
      → PipelineState W L
      → SkillRequest
  skill_request token skill_name inputs bindings artifact_id decision_id evidence_id s = record {
    run_id = p.run_id;
    token = token;
    skill_name = skill_name;
    inputs = inputs;
    bindings = bindings;
    artifact_id = artifact_id;
    created_at = s.created_at;
    decision_id = decision_id;
    evidence_id = evidence_id;
    scope = "skills";
    now = p.checked_at s.decision_seq;
  }

  -- The documents that were written, by their paths.
  unfoldable pub index_onto : Index → Dict Fields → Result Index
  index_onto index [] = ok index
  index_onto index ((artifact_id, document) ∷ written) = do
    path ← p.store_path artifact_id
    index_onto (put path document index) written
