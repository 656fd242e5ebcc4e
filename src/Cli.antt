-- ===== src/Cli.antt =====
-- cli.py: the console on which a command acts, which has the lines that were printed and the world of
-- the files, and what several commands do. A command returns its exit status. The parser of the
-- arguments is `argparse`.
pub mod Validate
pub mod Waivers
pub mod Deploy
pub mod Trace
pub mod Render
pub mod Setup
pub mod Bridge
pub mod ValidateStatus
pub mod WaiverStatus
pub mod Delivery
pub mod DeployStatus
use ai_dev_project.Prelude.{
  ◌≡◌, refl, ℕ, suc, String, Bool, true, false, not, Option, none, some, List, [], ◌∷◌, ◌++◌,
  is_empty, map, if◌then◌else◌, eqb,
}
use ai_dev_project.Prelude.Text.{◌<>◌, is_blank}
use ai_dev_project.Python.{
  Exn, Result, ok, raised, attribute_error, json_decode_error, candidate_error,
}
use ai_dev_project.Json.{Value, null, str, arr, obj, Fields, end, field, nil, cons, strs, to_items}
use ai_dev_project.Platform.{Platform, Datetime}
use ai_dev_project.Tools.Effects.{Act, and_then, lift}
use ai_dev_project.Artifacts.{Schemas, validate_artifact, validate_file}
use ai_dev_project.Waiver.Enforcement.{WaiverCheck, parse_timestamp, check_waiver}
use ai_dev_project.Policy.Client.{PolicyClient, Server}
use ai_dev_project.Deploy.Candidate.{load_candidate}
use ai_dev_project.Deploy.Verify.{ReleaseVerification, VerifyArgs, verify_release}
use ai_dev_project.Traceability.{TraceNode, Traceability, complete, format_report}
use ai_dev_project.Traceability.Loading.{Documents, trace_repository}

-- A line on the standard output or on the standard error, or a text that is written without a line feed.
pub data Line : Type 0 where
  out err bare : String → Line

pub record Console (W : Type 0) : Type 0 where
  pub lines : List Line
  pub world : W

-- What the commands use of the machine. `path_text` is `str(Path(raw))` and `path_name` is `Path(raw).name`; `pretty` is `json.dumps` with an
-- indent; `error_text` is the message of an exception; `repository` is `find_repo_root`, with its schemas.
pub record Host (W : Type 0) : Type 0 where
  pub is_file : String → W → Bool
  pub read_text : String → W → Result String
  pub make_dir : String → W → Result (Unit {0}) × W
  pub write_text : String → String → W → Result (Unit {0}) × W
  pub path_text : String → String
  pub path_name : String → String
  pub now : Datetime
  pub astimezone_utc : Datetime → Datetime
  pub strftime : String → Datetime → String
  pub pretty : Value → String
  pub error_text : Exn → String
  pub repository : Result Schemas
  pub documents : Option String → W → Result Documents

infixl 5 ◌>>=◌ ◌>>◌
abbrev pub ◌>>=◌ : {S A B : Type 0} → Act S A → (A → Act S B) → Act S B
m >>= f = and_then m f

abbrev pub ◌>>◌ : {S B : Type 0} → Act S (Unit {0}) → Act S B → Act S B
m >> k = m >>= λ _. k

module _ {W : Type 0} where
  abbrev pub exit : ℕ → Act (Console W) ℕ
  exit status s = (ok status, s)

  abbrev pub print : Line → Act (Console W) (Unit {0})
  print line s = (ok tt, record s { lines = s.lines ++ (line ∷ []) })

  -- `for item in items: print(f"  - {item}", file=sys.stderr)`
  unfoldable pub print_items : List String → Act (Console W) (Unit {0})
  print_items [] s = (ok tt, s)
  print_items (item ∷ items) s = print_items items (print (err ("  - " <> item)) s).1

  -- Printing returns, and leaves the world as it is.
  pub world-print_items :
      (items : List String) (s : Console W) → (print_items items s).1.world ≡ s.world
  unfolding print_items
  world-print_items [] s = refl
  world-print_items (item ∷ items) s = world-print_items items _

  pub returns-print_items : (items : List String) (s : Console W) → (print_items items s).0 ≡ ok tt
  unfolding print_items
  returns-print_items [] s = refl
  returns-print_items (item ∷ items) s = returns-print_items items _

  abbrev pub looks : {A : Type 0} → (W → A) → Act (Console W) A
  looks f s = (ok (f s.world), s)

  abbrev pub reads : {A : Type 0} → (W → Result A) → Act (Console W) A
  reads f s = (f s.world, s)

  abbrev pub acts : {A : Type 0} → Act W A → Act (Console W) A
  acts m s = let (r, w) = m s.world in (r, record s { world = w })

module _ {W : Type 0} (h : Host W) where
  -- `print(f"SKIP {path}: not a file", file=sys.stderr)`
  abbrev pub skip : String → Act (Console W) (Unit {0})
  skip raw = print (err ("SKIP " <> (h.path_text raw <> ": not a file")))

  abbrev pub report_invalid : String → List String → Act (Console W) (Unit {0})
  report_invalid raw errors = do print (err ("INVALID " <> h.path_text raw)); print_items errors

module _ (P : Platform) {W : Type 0} (h : Host W) where
  -- `json.loads(path.read_text(encoding="utf-8"))`
  unfoldable pub read_json : String → W → Result Value
  read_json raw w = elim (h.read_text raw w) [
    | raised e ↦ raised e
    | ok text ↦ elim (P.loads text) [ none ↦ raised json_decode_error | some v ↦ ok v ]
  ]

  -- `parse_timestamp(args.now) if args.now else datetime.now(UTC)`
  abbrev pub moment_of : Option String → Result Datetime
  moment_of none = ok h.now
  moment_of (some text) = if is_blank text then ok h.now else parse_timestamp P text
