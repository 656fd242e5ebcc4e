-- ===== src/Runner/Executor/Binding.antt =====
-- The run that an execution names, and the token that it is given.
use ai_dev_project.Prelude.{String, ◌≡◌, true, some, arith}
use ai_dev_project.Python.{ok}
use ai_dev_project.Platform.{Platform}
use ai_dev_project.Tools.Registry.{ToolSpec}
use ai_dev_project.Runner.Registry.{Run, get_run}
use ai_dev_project.Runner.Executor.{
  RunnerExecutor, Request, State, ExecutionResult, resource_of, execute,
}
use ai_dev_project.Runner.Executor.Gates.{Admits}
use ai_dev_project.Runner.Executor.Mediation.{execute-allowed_iff}

module _ (P : Platform) {W : Type 0} (x : RunnerExecutor W) (q : Request) (other : String)
    (run run' : Run) (known : get_run x.capabilities q.run_id ≡ some run)
    (known' : get_run x.capabilities other ≡ some run') (same_actor : run'.actor ≡ run.actor) where
  abbrev moved : Request
  moved = record q { run_id = other }

  Admits-moved : (spec : ToolSpec W) → Admits P x q spec → Admits P x moved spec
  unfolding resource_of
  Admits-moved spec a = record {
    run = run';
    result = a.result;
    capability = a.capability;
    known = known';
    asked = rw (same_actor) (ground (arith, known, a.known, a.asked));
    allowed = a.allowed;
    checked = a.checked;
    valid = a.valid;
    registered = a.registered;
    in_scope = a.in_scope;
    fits = a.fits;
  }

  -- An execution that is allowed is allowed too when it names another registered run with an equal
  -- actor, be that run finished or not, with the token of the first run.
  pub execute_other_run :
      (s : State W)
      → (e : ExecutionResult) × ((execute P x q s).0 ≡ ok e) × (e.allowed ≡ true)
      → (e : ExecutionResult) × ((execute P x moved s).0 ≡ ok e) × (e.allowed ≡ true)
  execute_other_run s h =
      let (spec, output, a, su) = (execute-allowed_iff P x q s).0 h in
      (execute-allowed_iff P x moved s).1
        (spec, output, Admits-moved spec a, record { returns = su.returns; fits = su.fits })
