-- ===== src/Skills/Roles/Envelope.antt =====
-- The fields of an artifact that the platform controls.
use ai_dev_project.Prelude.{
  String, Bool, true, false, not, ◌&&◌, List, [], ◌∷◌, contains, ◌≡◌, ◌∙◌, refl, some, arith, ◌==◌,
}
use ai_dev_project.Python.{ok, >>=-eq-ok, ok-injective}
use ai_dev_project.Json.{Value, str, Fields, end, field, get, item, insert, update}
use ai_dev_project.Json.Laws.{item-get, get-insert}
use ai_dev_project.Skills.Base.{Skill}
use ai_dev_project.Skills.Roles.{
  envelope_fields, base_document, assemble_specification, assemble_threat_model, assemble_plan,
  assemble_review, assemble_task, item_of, grill, grill_security, planner, reviewer, task_writer,
}

-- The envelope's own fields, and the type of the artifact.
pub record Enveloped (artifact_type : String) (envelope document : Fields) : Type 0 where
  pub artifact : get document "artifact_type" ≡ some (str artifact_type)
  pub version : get document "schema_version" ≡ some (str "1.0.0")
  pub id : get document "id" ≡ get envelope "artifact_id"
  pub created_at : get document "created_at" ≡ get envelope "created_at"
  pub created_by : get document "created_by" ≡ get envelope "actor"
  pub run_id : get document "run_id" ≡ get envelope "run_id"

-- The skills of the repository, with the type of artifact that each makes.
pub data Role : Skill → String → Type 0 where
  is_grill : Role grill "specification"
  is_grill_security : Role grill_security "threat-model"
  is_planner : Role planner "plan"
  is_reviewer : Role reviewer "review"
  is_task_writer : Role task_writer "task"

envelope_fields-Enveloped :
    (t : String) (envelope d : Fields) → envelope_fields t envelope ≡ ok d → Enveloped t envelope d
unfolding envelope_fields get
envelope_fields-Enveloped t envelope d h =
    let (id, a, h₁) = >>=-eq-ok (item envelope "artifact_id") _ h in
    let (created_at, b, h₂) = >>=-eq-ok (item envelope "created_at") _ h₁ in
    let (actor, c, h₃) = >>=-eq-ok (item envelope "actor") _ h₂ in
    let (run_id, e, h₄) = >>=-eq-ok (item envelope "run_id") _ h₃ in
    record {
      artifact = ground arith;
      version = ground arith;
      id = ground (arith, item-get envelope "artifact_id" id a);
      created_at = ground (arith, item-get envelope "created_at" created_at b);
      created_by = ground (arith, item-get envelope "actor" actor c);
      run_id = ground (arith, item-get envelope "run_id" run_id e);
    }

abbrev reserved : List String
reserved = "artifact_type" ∷ "schema_version" ∷ "id" ∷ "created_at" ∷ "created_by" ∷ "run_id" ∷ []

-- None of the keys is one of those fields.
abbrev apart : Fields → Bool
apart end = true
apart (field k v d) = not (contains reserved k) && apart d

get-insert_ne :
    (k j : String) (v : Value) (d : Fields) → k == j ≡ false → get (insert k v d) j ≡ get d j
get-insert_ne k j v d n = get-insert k j v d ∙ rw n

module _ (t : String) (envelope : Fields) where
  Enveloped-insert :
      (k : String) (v : Value) (d : Fields)
      → contains reserved k ≡ false
      → Enveloped t envelope d
      → Enveloped t envelope (insert k v d)
  Enveloped-insert k v d n e = record {
    artifact = get-insert_ne k "artifact_type" v d (ground arith) ∙ e.artifact;
    version = get-insert_ne k "schema_version" v d (ground arith) ∙ e.version;
    id = get-insert_ne k "id" v d (ground arith) ∙ e.id;
    created_at = get-insert_ne k "created_at" v d (ground arith) ∙ e.created_at;
    created_by = get-insert_ne k "created_by" v d (ground arith) ∙ e.created_by;
    run_id = get-insert_ne k "run_id" v d (ground arith) ∙ e.run_id;
  }

  Enveloped-update :
      (d other : Fields)
      → apart other ≡ true
      → Enveloped t envelope d
      → Enveloped t envelope (update d other)
  unfolding update
  Enveloped-update d end a e = e
  Enveloped-update d (field k v other) a e =
      Enveloped-update (insert k v d) other (ground arith) (Enveloped-insert k v d (ground arith) e)

  base_document-Enveloped :
      (status : String) (d : Fields)
      → base_document t status envelope ≡ ok d
      → Enveloped t envelope d
  unfolding base_document
  base_document-Enveloped status d h =
      let (bindings, a, h₁) = >>=-eq-ok (item envelope "bindings") _ h in
      let (base, b, h₂) = >>=-eq-ok (envelope_fields t envelope) _ h₁ in
      let (feature_id, c, h₃) = >>=-eq-ok (item_of bindings "feature_id") _ h₂ in
      rw (← ok-injective _ _ h₃)
        (Enveloped-update base _ refl (envelope_fields-Enveloped t envelope base b))

-- Whatever the model answers, a specification, threat model, plan, review or task that is assembled
-- has its own artifact type and schema version, and the id, the time, the author and the run of the
-- envelope.
pub assemble-Enveloped :
    (skill : Skill) (artifact_type : String)
    → Role skill artifact_type
    → (content envelope document : Fields) → skill.assemble content envelope ≡ ok document
    → Enveloped artifact_type envelope document
unfolding assemble_specification assemble_threat_model assemble_plan assemble_review assemble_task
assemble-Enveloped _ _ is_grill content envelope document h =
    let (base, b, h₁) = >>=-eq-ok (base_document "specification" "draft" envelope) _ h in
    rw (← ok-injective _ _ h₁)
      (Enveloped-update _ envelope base _ refl (base_document-Enveloped _ envelope "draft" base b))
assemble-Enveloped _ _ is_grill_security content envelope document h =
    let (base, b, h₁) = >>=-eq-ok (base_document "threat-model" "draft" envelope) _ h in
    rw (← ok-injective _ _ h₁)
      (Enveloped-update _ envelope base _ refl (base_document-Enveloped _ envelope "draft" base b))
assemble-Enveloped _ _ is_planner content envelope document h =
    let (base, b, h₁) = >>=-eq-ok (base_document "plan" "draft" envelope) _ h in
    rw (← ok-injective _ _ h₁) (
      Enveloped-insert _ envelope "slices" _ base refl
        (base_document-Enveloped _ envelope "draft" base b))
assemble-Enveloped _ _ is_reviewer content envelope document h =
    let (bindings, a, h₁) = >>=-eq-ok (item envelope "bindings") _ h in
    let (base, b, h₂) = >>=-eq-ok (envelope_fields "review" envelope) _ h₁ in
    let (task_id, c, h₃) = >>=-eq-ok (item_of bindings "task_id") _ h₂ in
    let (digest, e, h₄) = >>=-eq-ok (item_of bindings "subject_digest") _ h₃ in
    rw (← ok-injective _ _ h₄)
      (Enveloped-update _ envelope base _ refl (envelope_fields-Enveloped _ envelope base b))
assemble-Enveloped _ _ is_task_writer content envelope document h =
    let (bindings, a, h₁) = >>=-eq-ok (item envelope "bindings") _ h in
    let (base, b, h₂) = >>=-eq-ok (envelope_fields "task" envelope) _ h₁ in
    let (feature_id, c, h₃) = >>=-eq-ok (item_of bindings "feature_id") _ h₂ in
    let (plan_id, e, h₄) = >>=-eq-ok (item_of bindings "plan_id") _ h₃ in
    rw (← ok-injective _ _ h₄)
      (Enveloped-update _ envelope base _ refl (envelope_fields-Enveloped _ envelope base b))
