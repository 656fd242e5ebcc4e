-- ===== src/Mcp/Bootstrap/Given.antt =====
-- `inject_capability`: the parameters with a capability, and how a message with them is read.
use ai_dev_project.Prelude.{String, ◌≡◌, ◌∙◌, false, none, some, ◌==◌, arith, if◌then◌else◌}
use ai_dev_project.Prelude.Text.{is_blank}
use ai_dev_project.Json.{Value, str, obj, Fields, get, set_default}
use ai_dev_project.Json.Laws.{get-set_default}
use ai_dev_project.Tools.Registry.{ToolSpec}
use ai_dev_project.Mcp.Server.{call, read_call, filled}

filled-nonblank : (s : String) → is_blank s ≡ false → filled (some (str s)) ≡ some s
filled-nonblank s h = rw h

pub read_call_lem :
    (id : Value) (p : Fields) (name : String) (arguments : Fields) (run_id t scope : String)
    → is_blank name ≡ false
    → is_blank run_id ≡ false
    → is_blank t ≡ false
    → is_blank scope ≡ false
    → get p "name" ≡ some (str name)
    → get p "arguments" ≡ some (obj arguments)
    → get p "run_id" ≡ some (str run_id)
    → get p "token" ≡ some (str t)
    → get p "scope" ≡ some (str scope)
    → read_call id p
      ≡ call
          (record { name = name; arguments = arguments; run_id = run_id; token = t; scope = scope })
unfolding read_call
read_call_lem id p name arguments run_id t scope bn br bt bs gn ga gr gt gs =
    rw (gn, read_call) (rw (bn, ga) (rw (gr, br) (rw (gt, bt) (rw (gs, bs)))))

module _ {W : Type 0} (run_id : String) where
  -- The parameters with what they lack of a capability.
  abbrev pub with_capability : ToolSpec W → String → Fields → Fields
  with_capability spec t params =
      set_default "token" (str t)
        (set_default "scope" (str spec.scope) (set_default "run_id" (str run_id) params))

  module _ (spec : ToolSpec W) (t : String) (params : Fields) where
    get-with_capability :
        (key : String)
        → get (with_capability spec t params) key ≡ elim (get params key) [
          | some v ↦ some v
          | none ↦
              if "run_id" == key
              then some (str run_id)
              else if "scope" == key
              then some (str spec.scope)
              else if "token" == key
              then some (str t)
              else none
        ]
    get-with_capability key = ground (
      arith,
      get-set_default "token" key (str t)
          (set_default "scope" (str spec.scope) (set_default "run_id" (str run_id) params)),
      get-set_default "scope" key (str spec.scope) (set_default "run_id" (str run_id) params),
      get-set_default "run_id" key (str run_id) params,
    )

    pub given-with_capability :
        (key : String) (v : Value)
        → get params key ≡ some v
        → get (with_capability spec t params) key ≡ some v
    given-with_capability key v g = get-with_capability key ∙ rw g

    pub run_id-with_capability :
        get params "run_id" ≡ none
        → get (with_capability spec t params) "run_id" ≡ some (str run_id)
    run_id-with_capability g = get-with_capability "run_id" ∙ rw g

    pub scope-with_capability :
        get params "scope" ≡ none
        → get (with_capability spec t params) "scope" ≡ some (str spec.scope)
    scope-with_capability g = get-with_capability "scope" ∙ rw g

    pub token-with_capability :
        get params "token" ≡ none → get (with_capability spec t params) "token" ≡ some (str t)
    token-with_capability g = get-with_capability "token" ∙ rw g
