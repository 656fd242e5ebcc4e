-- ===== src/Skills/Stub.antt =====
-- llm/stub.py: the adapter with canned responses, which acts on no world.
use ai_dev_project.Prelude.{String, none, some}
use ai_dev_project.Prelude.Dict.{Dict, lookup}
use ai_dev_project.Python.{Result, ok, raised, llm_error}
use ai_dev_project.Skills.Base.{LlmRequest, LlmResponse, LlmAdapter}

abbrev pub default_model : String
default_model = "stub"

pub record StubLlm : Type 0 where
  pub responses : Dict String
  pub model : String

-- A role that has no response fails closed.
unfoldable pub complete : StubLlm → LlmRequest → Result LlmResponse
complete stub request = elim (lookup request.role stub.responses) [
  | none ↦ raised llm_error
  | some text ↦ ok (record { text = text; model = stub.model })
]

abbrev pub adapter : {L : Type 0} → StubLlm → LlmAdapter L
adapter stub request l = (complete stub request, l)
