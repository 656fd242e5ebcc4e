-- ===== src/Lib.antt =====
-- The control plane of the secure agentic SDLC (control-plane/src/sdlc): an agent's tool calls pass a
-- policy server and a capability check before a tool runs, and every outcome leaves evidence.
--
-- The parts, and the files that model them:
--   Trust                 control-plane/src/sdlc/trust.py
--   Evidence              control-plane/src/sdlc/evidence: Compression (compression.py), Store (store.py,
--                         where put is store_bytes and get is read_bytes), Record (record.py), Output
--                         (pipeline.py, process_tool_output)
--   Policy                control-plane/src/sdlc/policy: Client (client.py), Decision (decision.py), Points
--                         (artifact_transition.py, pre_deployment.py)
--   Tools                 control-plane/src/sdlc/tools: Registry (registry.py), Workspace (WorkspaceWriter of
--                         builtin.py), Artifacts (ArtifactStore and its tools), Commands (commands.py),
--                         Registration (register_file_tools, register_test_tools), Schema, OpenPr
--                         (OpenPRTool of vcs.py), Github (the rest of vcs.py), and Effects, the sequence of
--                         calls that act on a world
--   Runner                control-plane/src/sdlc/runner: Capability (capability.py), Registry
--                         (registry.py), Executor (executor.py)
--   Waiver                control-plane/src/sdlc/waiver/enforcement.py
--   Mcp                   control-plane/src/sdlc/mcp: Protocol (protocol.py), Server (server.py), Bootstrap
--                         (bootstrap.py), Client (client.py), Stdio (serve_stdio of
--                         control-plane/src/sdlc/cli.py)
--   Artifacts             control-plane/src/sdlc/artifacts: registry.py in the file itself and in Files,
--                         which reads the schemas, and Render (render.py): Documents, Plans and Records have
--                         the renderers, Dispatch has render_artifact
--   Skills                control-plane/src/sdlc/skills: Base (base.py, registry.py, and llm/base.py of the
--                         directory above), Stub (llm/stub.py), Roles (roles.py, task_writer.py), Defaults
--                         (__init__.py), Contract and Runner (runner.py)
--   Deploy                control-plane/src/sdlc/deploy_verify: Candidate, Bundle, Verify
--   Traceability          control-plane/src/sdlc/traceability.py, where Loading reads the documents
--   Pipeline              control-plane/src/sdlc/pipeline/orchestrator.py: build_security_review in the file
--                         itself, Contract (what a pipeline is made of), Calls (its steps: _artifact_id,
--                         _next_decision_id, _next_evidence_id, _persist as persist, _skill as run_stage),
--                         Run (run, one function for each stage)
--   Cli                   control-plane/src/sdlc/cli.py: Validate (_cmd_validate), Render (_cmd_render),
--                         Waivers (_cmd_waiver), Deploy (_cmd_deploy_verify), Trace (_cmd_trace),
--                         Setup and Bridge (_cmd_mcp)
-- Prelude has lists, integers, dicts, sorting and Python's text methods; Python has exceptions as values;
-- Json has the values of json.loads; Platform has what the program calls and does not implement;
-- Examples has runs at concrete inputs.
--
-- RunnerExecutor.execute of Executor.antt is the meeting point: it asks the policy (Policy.Client is one
-- evaluator), checks the token in the run registry, finds the tool, runs its handler and stores evidence
-- through Evidence.Output. Its state is the evidence store and the world on which the tools act; both come
-- back beside an error too. Mcp.Server runs one execution for a well-formed call, and Mcp.Bootstrap adds the
-- capability to a call that has none; Skills.Runner passes the same gates before it asks a language model,
-- which acts on a world of its own. Pipeline.Run chains seven stages, each a call of Skills.Runner or a
-- document that the platform compiles, and each document is written through RunnerExecutor.execute. Deploy
-- asks the policy about a release. Cli runs these parts from the command line. Time, random ids and the
-- digests' algorithm are arguments.
--
-- Parameters: the package jsonschema (IterErrors), hashlib, hmac, base64, zlib, json and datetime
-- (Platform), the policy server (Server), the handlers of tools, and the file system, processes, the
-- environment and HTTP as the tools and the commands see them. A policy evaluator is a function of the
-- point and the payload; that a server may answer differently later is seen as another function.
-- Dicts are association lists in insertion order with text keys; floats are kept as printed. Texts are
-- sequences of code points without lone surrogates. Fuel is used twice: for decimal digits, one more than
-- the number, which has no more digits than that; and for the worklist of Traceability, one step for each
-- document and each path at the start, since each path is read at most once.
--
-- Not modelled: the parser of the command line (argparse), the encoding of the standard streams
-- (_force_utf8), and the parts in Go and Rego.
pub mod Prelude
pub mod Python
pub mod Json
pub mod Platform
pub mod Trust
pub mod Evidence
pub mod Policy
pub mod Tools
pub mod Waiver
pub mod Runner
pub mod Mcp
pub mod Artifacts
pub mod Skills
pub mod Deploy
pub mod Traceability
pub mod Pipeline
pub mod Cli
pub mod Examples
