-- ===== src/Mcp/Bootstrap/Injection.antt =====
-- `inject_capability` on the parameters of a call.
use Prim.Native.String.append
use ai_dev_project.Prelude.{
  String, ◌≡◌, ◌∙◌, ap, refl, true, false, none, some, arith, inl, inr, Bool-cases, Option-cases,
}
use ai_dev_project.Prelude.Dict.{lookup}
use ai_dev_project.Prelude.Int.{ℤ, pos, ◌+ℤ◌, lt_int_iff_add_nonneg}
use ai_dev_project.Prelude.Text.{◌<>◌, is_blank}
use ai_dev_project.Python.{ok, >>=-eq-ok, Result-cases}
use ai_dev_project.Json.{Value, str, obj, Fields, get}
use ai_dev_project.Platform.{Platform, loaded}
use ai_dev_project.Tools.Registry.{ToolSpec, ToolRegistry, get_tool}
use ai_dev_project.Runner.Capability.{Capability, CapabilityCheck}
use ai_dev_project.Runner.Capability.Decoding.{Encodes, raw_of, mac_of, sorted_claims}
use ai_dev_project.Runner.Registry.{
  accept, judge, Run, RunRegistry, issue, check, default_ttl_seconds,
}
use ai_dev_project.Runner.Registry.Checks.{judge-Holds, check_sound, check-issue}
use ai_dev_project.Mcp.Server.{call, read_call, given_text, given_text→eq}
use ai_dev_project.Mcp.Bootstrap.{has_capability, add_capability, inject_params}
use ai_dev_project.Mcp.Bootstrap.Given.{
  with_capability, given-with_capability, run_id-with_capability, scope-with_capability,
  token-with_capability, read_call_lem,
}

is_blank-append : (a b : String) → is_blank a ≡ false → is_blank (a <> b) ≡ false
is_blank-append String.[] b h = cc
is_blank-append (String.◌∷◌ c a) b h = rw (append.cons c a b)

module _ (P : Platform) {W : Type 0} (capabilities : RunRegistry) (tools : ToolRegistry W)
    (run_id : String) (now : ℤ) where
  module _ (spec : ToolSpec W) (t : String) (params : Fields) where
    inject_params-with_capability :
        (name : String)
        → get params "name" ≡ some (str name)
        → get params "run_id" ≡ none
        → get_tool name tools ≡ ok spec
        → issue P capabilities run_id name spec.scope (pos default_ttl_seconds) now ≡ ok t
        → inject_params P capabilities tools run_id now params
          ≡ ok (some (with_capability run_id spec t params))
    unfolding inject_params add_capability
    inject_params-with_capability name gn gr found issued =
        let bare : has_capability params ≡ false = ground (arith, gr) in
        rw (bare, inject_params) (rw gn (rw found (rw (issued, add_capability))))

  -- What a call of `add_capability` that returned has done.
  add_capability_lem :
      (spec : ToolSpec W) (name : String) (params p : Fields)
      → add_capability P capabilities tools run_id now spec name params ≡ ok p
      → (t : String) × (issue P capabilities run_id name spec.scope (pos default_ttl_seconds) now
          ≡ ok t)
        × (p ≡ with_capability run_id spec t params)
  unfolding add_capability
  add_capability_lem spec name params p h =
      let (t, issued, e) =
        >>=-eq-ok (issue P capabilities run_id name spec.scope (pos default_ttl_seconds) now) _ h in
      (t, issued, ground (arith, e))

  inject_params_lem :
      (params p : Fields)
      → inject_params P capabilities tools run_id now params ≡ ok (some p)
      → (name : String) × (spec : ToolSpec W) × (get params "name" ≡ some (str name))
        × (get_tool name tools ≡ ok spec)
        × (add_capability P capabilities tools run_id now spec name params ≡ ok p)
  unfolding inject_params
  inject_params_lem params p h = elim (Bool-cases (has_capability params)) [
    | inl a ↦ ground (arith, rw (a, inject_params) at h)
    | inr a ↦ elim (Option-cases (given_text (get params "name"))) [
      | inl b ↦ ground (arith, a, b)
      | inr (name, b) ↦ elim (Result-cases (get_tool name tools)) [
        | inr (e, c) ↦ ground (arith, a, b, c)
        | inl (spec, c) ↦
            elim (Result-cases (add_capability P capabilities tools run_id now spec name params)) [
              | inr (e, d) ↦ ground (arith, a, b, c, d)
              | inl (q, d) ↦ (
                name,
                spec,
                given_text→eq (get params "name") name b,
                c,
                d ∙ ap ok (ground (arith, a, b, c, d)),
              )
            ]
      ]
    ]
  ]

  -- The bridge keeps every parameter that the caller gave, and what it adds is its own run, the scope of
  -- the tool that the call names, and a token that the registry issued for that run, tool and scope.
  pub inject_params_keeps :
      (params p : Fields)
      → inject_params P capabilities tools run_id now params ≡ ok (some p)
      → (name t : String) × (spec : ToolSpec W) × (get params "name" ≡ some (str name))
        × (get_tool name tools ≡ ok spec)
        × (issue P capabilities run_id name spec.scope (pos default_ttl_seconds) now ≡ ok t)
        × ((key : String) (v : Value) → get params key ≡ some v → get p key ≡ some v)
        × (get params "run_id" ≡ none → get p "run_id" ≡ some (str run_id))
        × (get params "scope" ≡ none → get p "scope" ≡ some (str spec.scope))
        × (get params "token" ≡ none → get p "token" ≡ some (str t))
  inject_params_keeps params p h =
      let (name, spec, named, found, added) = inject_params_lem params p h in
      let (t, issued, e) = add_capability_lem spec name params p added in
      (
        name,
        t,
        spec,
        named,
        found,
        issued,
        rw e (given-with_capability run_id spec t params),
        rw e (run_id-with_capability run_id spec t params),
        rw e (scope-with_capability run_id spec t params),
        rw e (token-with_capability run_id spec t params),
      )

  checked_nonblank :
      (t tool scope : String) (k : CapabilityCheck)
      → check P capabilities t tool scope now ≡ ok k
      → k.valid ≡ true
      → is_blank t ≡ false
  checked_nonblank t tool scope k h v =
      let (c, e, s, shape, _, _, _, _) = check_sound P capabilities t tool scope now k h v in
      rw shape (is_blank-append "v1" ("." <> (e <> ("." <> s))) refl)

  -- A call that carries no capability, of a registered tool of a live run, where the name, the scope and
  -- the id of the run are not empty, and base64 and JSON read back what they wrote of the capability: what
  -- the bridge makes of it is a well-formed call with the same tool and the same arguments, its token passes
  -- the check for the tool and its scope at that time, and the verdict names the bridge's run, the tool and
  -- the scope.
  pub inject_params-check :
      (id : Value) (params arguments : Fields) (name : String) (spec : ToolSpec W) (run : Run)
      → let c : Capability = record {
        run_id = run_id;
        tool = name;
        scope = spec.scope;
        expires_at = now +ℤ pos default_ttl_seconds;
      } in
        is_blank run_id ≡ false
        → is_blank name ≡ false
        → is_blank spec.scope ≡ false
        → get params "name" ≡ some (str name)
        → get params "arguments" ≡ some (obj arguments)
        → get params "run_id" ≡ none
        → get params "token" ≡ none
        → get params "scope" ≡ none
        → get_tool name tools ≡ ok spec
        → lookup run_id capabilities.runs ≡ some run
        → run.finished ≡ false
        → Encodes P (raw_of P capabilities.secret c)
        → Encodes P (mac_of P capabilities.secret c)
        → P.loads_bytes (raw_of P capabilities.secret c) ≡ loaded (obj (sorted_claims c))
        → (p : Fields) × (t : String) × (inject_params P capabilities tools run_id now params
            ≡ ok (some p))
          × (read_call id p
              ≡ call (record {
                name = name;
                arguments = arguments;
                run_id = run_id;
                token = t;
                scope = spec.scope;
              }))
          × (k : CapabilityCheck) × (check P capabilities t name spec.scope now ≡ ok k)
          × (k.valid ≡ true)
          × (k.run_id ≡ some run_id)
          × (k.tool ≡ some name)
          × (k.scope ≡ some spec.scope)
  inject_params-check id params arguments name spec run br bn bs gn ga gr gt gs found known live hp
        hs read =
      let c : Capability = record {
        run_id = run_id;
        tool = name;
        scope = spec.scope;
        expires_at = now +ℤ pos default_ttl_seconds;
      } in
      let (t, issued, judged) =
        check-issue P capabilities capabilities run run_id name spec.scope name spec.scope
          (pos default_ttl_seconds) now now known live refl hp hs read in
      let accepted : judge capabilities c name spec.scope now ≡ accept c =
        judge-Holds capabilities c name spec.scope now (record {
          run = run;
          registered = known;
          live = live;
          fresh = λ l. ground (arith, lt_int_iff_add_nonneg now default_ttl_seconds);
          same_tool = refl;
          same_scope = refl;
        }) in
      let checked : check P capabilities t name spec.scope now ≡ ok (accept c) =
        judged ∙ ap ok accepted in
      (
        with_capability run_id spec t params,
        t,
        inject_params-with_capability spec t params name gn gr found issued,
        read_call_lem id (with_capability run_id spec t params) name arguments run_id t spec.scope
            bn br (checked_nonblank t name spec.scope (accept c) checked refl) bs
            (given-with_capability run_id spec t params "name" (str name) gn)
            (given-with_capability run_id spec t params "arguments" (obj arguments) ga)
            (run_id-with_capability run_id spec t params gr)
            (token-with_capability run_id spec t params gt)
            (scope-with_capability run_id spec t params gs),
        accept c,
        checked,
        refl,
        refl,
        refl,
        refl,
      )
