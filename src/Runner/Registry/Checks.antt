-- ===== src/Runner/Registry/Checks.antt =====
-- `check` of the registry of runs, against what it means for a capability to hold.
use ai_dev_project.Prelude.{
  String, ◌≡◌, ◌↔◌, ◌∙◌, ap, true, false, some, arith, eq_iff, Option-cases, inl, inr,
}
use ai_dev_project.Prelude.Dict.{lookup}
use ai_dev_project.Prelude.Int.{ℤ, ◌+ℤ◌, ◌<ℤ◌}
use ai_dev_project.Prelude.Text.{◌<>◌}
use ai_dev_project.Python.{ok, >>=-eq-ok}
use ai_dev_project.Json.{obj}
use ai_dev_project.Platform.{Platform, loaded}
use ai_dev_project.Runner.Capability.{
  Capability, CapabilityCheck, sign, decode_payload, decode_token,
}
use ai_dev_project.Runner.Capability.Decoding.{
  decode_token_sound, decode_token-issue_token, Encodes, raw_of, mac_of, sorted_claims,
}
use ai_dev_project.Runner.Registry.{Run, RunRegistry, judge, check_decoded, check, issue, accept}

-- The run of the capability is registered and not finished, the capability has not expired, and it is
-- for this tool and this scope.
pub record Holds (r : RunRegistry) (c : Capability) (tool scope : String) (now : ℤ) : Type 0 where
  pub run : Run
  pub registered : lookup c.run_id r.runs ≡ some run
  pub live : run.finished ≡ false
  pub fresh : ¬ (c.expires_at <ℤ now)
  pub same_tool : c.tool ≡ tool
  pub same_scope : c.scope ≡ scope

module _ (r : RunRegistry) (c : Capability) (tool scope : String) (now : ℤ) where
  pub Holds-judge : (judge r c tool scope now).valid ≡ true → Holds r c tool scope now
  unfolding judge
  Holds-judge h = elim (Option-cases (lookup c.run_id r.runs)) [
    | inl e ↦ ground arith
    | inr (run, e) ↦ record {
      run = run;
      registered = e;
      live = ground arith;
      fresh = ground arith;
      same_tool = ground (arith, eq_iff c.tool tool);
      same_scope = ground (arith, eq_iff c.scope scope);
    }
  ]

  pub judge-Holds : Holds r c tool scope now → judge r c tool scope now ≡ accept c
  unfolding judge
  judge-Holds h = ground (
    arith,
    h.registered,
    h.live,
    h.fresh,
    eq_iff c.tool tool,
    eq_iff c.scope scope,
    h.same_tool,
    h.same_scope,
  )

  pub run_id-judge : (judge r c tool scope now).run_id ≡ some c.run_id
  unfolding judge
  run_id-judge = ground arith

  -- A verdict reads one run of the registry.
  pub judge_lem :
      (r' : RunRegistry)
      → lookup c.run_id r'.runs ≡ lookup c.run_id r.runs
      → judge r' c tool scope now ≡ judge r c tool scope now
  unfolding judge
  judge_lem r' h = rw (h, judge)

module _ (P : Platform) (r : RunRegistry) where
  -- A check that succeeds: the token is `v1.<payload>.<signature>` with the signature that the
  -- registry's secret gives the text before it, its payload encodes a capability, and the capability
  -- holds: its run is registered and not finished, it has not expired, and its tool and its scope are
  -- the requested ones. The result names that capability.
  pub check_sound :
      (token tool scope : String) (now : ℤ) (k : CapabilityCheck)
      → check P r token tool scope now ≡ ok k
      → k.valid ≡ true
      → (c : Capability) × (e s : String) × (token ≡ "v1" <> ("." <> (e <> ("." <> s))))
        × (sign P r.secret ("v1." <> e) ≡ ok s)
        × ((decode_payload P e).capability ≡ some c)
        × Holds r c tool scope now
        × (k ≡ accept c)
  unfolding check
  check_sound token tool scope now k h v =
      let (d, decoded, checked) =
        >>=-eq-ok (decode_token P r.secret token) (λ d. ok (check_decoded r d tool scope now)) h in
      elim (Option-cases d.capability) [
        | inl q ↦ ground (arith, q)
        | inr (c, q) ↦
            let (e, s, shape, signed, payload) =
              decode_token_sound P r.secret token d c decoded q in
            let holds : Holds r c tool scope now =
              Holds-judge r c tool scope now (ground (arith, q)) in
            (
              c,
              e,
              s,
              shape,
              signed,
              ap (λ x. x.capability) payload ∙ q,
              holds,
              ground (arith, q, judge-Holds r c tool scope now holds),
            )
      ]

  -- A token is issued, and a check of it by a registry with the same secret judges its capability.
  pub check-issue :
      (r' : RunRegistry) (run : Run) (run_id tool scope tool' scope' : String)
      (ttl issued_at now : ℤ)
      → let c : Capability = record {
        run_id = run_id;
        tool = tool;
        scope = scope;
        expires_at = issued_at +ℤ ttl;
      } in
        lookup run_id r.runs ≡ some run
        → run.finished ≡ false
        → r'.secret ≡ r.secret
        → Encodes P (raw_of P r.secret c)
        → Encodes P (mac_of P r.secret c)
        → P.loads_bytes (raw_of P r.secret c) ≡ loaded (obj (sorted_claims c))
        → (t : String) × (issue P r run_id tool scope ttl issued_at ≡ ok t)
          × (check P r' t tool' scope' now ≡ ok (judge r' c tool' scope' now))
  unfolding issue check check_decoded
  check-issue r' run run_id tool scope tool' scope' ttl issued_at now known live same hp hs read =
      let c : Capability = record {
        run_id = run_id;
        tool = tool;
        scope = scope;
        expires_at = issued_at +ℤ ttl;
      } in
      let (t, issued, decoded) = decode_token-issue_token P r.secret c hp hs read in
      (t, rw (known, issue) (rw live issued), rw (same, check) (rw decoded))

  -- A token can be issued for a registered run that is not finished. Whatever has happened to the runs
  -- since, a check of it by a registry with the same secret succeeds exactly if the capability of the
  -- token holds there, provided base64 and JSON read back what they wrote.
  pub check-issue_iff :
      (r' : RunRegistry) (run : Run) (run_id tool scope tool' scope' : String)
      (ttl issued_at now : ℤ)
      → let c : Capability = record {
        run_id = run_id;
        tool = tool;
        scope = scope;
        expires_at = issued_at +ℤ ttl;
      } in
        lookup run_id r.runs ≡ some run
        → run.finished ≡ false
        → r'.secret ≡ r.secret
        → Encodes P (raw_of P r.secret c)
        → Encodes P (mac_of P r.secret c)
        → P.loads_bytes (raw_of P r.secret c) ≡ loaded (obj (sorted_claims c))
        → (t : String) × (k : CapabilityCheck) × (issue P r run_id tool scope ttl issued_at ≡ ok t)
          × (check P r' t tool' scope' now ≡ ok k)
          × ((k.valid ≡ true) ↔ Holds r' c tool' scope' now)
  check-issue_iff r' run run_id tool scope tool' scope' ttl issued_at now known live same hp hs
        read =
      let c : Capability = record {
        run_id = run_id;
        tool = tool;
        scope = scope;
        expires_at = issued_at +ℤ ttl;
      } in
      let (t, issued, checked) =
        check-issue r' run run_id tool scope tool' scope' ttl issued_at now known live same hp hs
          read in
      (
        t,
        judge r' c tool' scope' now,
        issued,
        checked,
        (
          Holds-judge r' c tool' scope' now,
          λ h. ap (λ k. k.valid) (judge-Holds r' c tool' scope' now h),
        ),
      )
