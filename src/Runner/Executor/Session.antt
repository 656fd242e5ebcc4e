-- ===== src/Runner/Executor/Session.antt =====
-- Executions of runner/executor.py one after the other, and the evidence store behind them.
use ai_dev_project.Prelude.{String, inl, inr}
use ai_dev_project.Json.{Fields}
use ai_dev_project.Platform.{Platform}
use ai_dev_project.Evidence.Recovery.{IsAddressed, store_bytes-IsAddressed}
use ai_dev_project.Tools.Registry.{ToolSpec}
use ai_dev_project.Runner.Executor.{
  RunnerExecutor, Request, State, deny, executed, call_handler, execute,
}
use ai_dev_project.Runner.Executor.Endings.{record_call_lem, call_handler-cases}
use ai_dev_project.Runner.Executor.Mediation.{course, stopped, refused, ran}

-- The states that a sequence of executions leads to.
pub data Session (P : Platform) {W : Type 0} (x : RunnerExecutor W) (start : State W)
    : State W → Type 0 where
  begun : Session P x start start
  then_call :
      (q : Request) (s : State W) → Session P x start s → Session P x start (execute P x q s).1

module _ (P : Platform) {W : Type 0} (x : RunnerExecutor W) where
  module _ (q : Request) (actor decision : Fields) where
    deny-IsAddressed :
        (reason : String) (s : State W)
        → IsAddressed P s.store
        → IsAddressed P (deny P x q actor decision reason s).1.store
    unfolding deny
    deny-IsAddressed reason s inv =
        rw (record_call_lem P x q actor decision _ s) (store_bytes-IsAddressed P _ s.store inv)

    executed-IsAddressed :
        (output : Fields) (s : State W)
        → IsAddressed P s.store
        → IsAddressed P (executed P x q actor decision output s).1.store
    unfolding executed
    executed-IsAddressed output s inv =
        rw (record_call_lem P x q actor decision _ s) (store_bytes-IsAddressed P _ s.store inv)

    call_handler-IsAddressed :
        (spec : ToolSpec W) (s : State W)
        → IsAddressed P s.store
        → IsAddressed P (call_handler P x q actor decision spec s).1.store
    call_handler-IsAddressed spec s inv = elim (call_handler-cases P x q actor decision spec s) [
      | inl (reason, e) ↦ rw e (deny-IsAddressed reason _ inv)
      | inr (output, e) ↦ rw e (executed-IsAddressed output _ inv)
    ]

  execute-IsAddressed :
      (q : Request) (s : State W) → IsAddressed P s.store → IsAddressed P (execute P x q s).1.store
  execute-IsAddressed q s inv = elim (course P x q s) [
    | stopped fault c ↦ rw c inv
    | refused actor result reason c ↦ rw c (deny-IsAddressed q actor _ reason s inv)
    | ran spec a c ↦ rw c (call_handler-IsAddressed q a.run.actor _ spec s inv)
  ]

  -- However the executions go, an addressed store stays one.
  pub Session-IsAddressed :
      {start s : State W} → Session P x start s → IsAddressed P start.store → IsAddressed P s.store
  Session-IsAddressed begun inv = inv
  Session-IsAddressed (then_call q s session) inv =
      execute-IsAddressed q s (Session-IsAddressed session inv)
