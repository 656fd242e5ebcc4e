-- ===== src/Policy/Client/FailClosed.antt =====
-- The evaluation of the policy client, by what the server replies.
use ai_dev_project.Prelude.{
  ℕ, String, ◌≡◌, ◌≢◌, ◌↔◌, ◌⊎◌, inl, inr, refl, Bool, true, false, Option, none, some, List, [],
  ◌∷◌, arith, Option-cases,
}
use ai_dev_project.Json.{Value, bool, arr, obj, Fields, get, cons, to_list}
use ai_dev_project.Python.{ok, raised, unicode_decode_error}
use ai_dev_project.Platform.{Platform, Loaded, loaded, bad_json, bad_utf8}
use ai_dev_project.Policy.Client.{
  PolicyClient, PolicyResult, Server, evaluate, parse_reply, read_body, read_result, with_codes,
  request_url, request_body, default_code, given_codes, texts, result_of, fail_closed,
  compute_input_digest, reason_policy_unavailable, reason_policy_malformed,
}

Loaded-cases : (l : Loaded) → (l ≡ bad_json) ⊎ (l ≡ bad_utf8) ⊎ ((v : Value) × (l ≡ loaded v))
Loaded-cases bad_json = inl refl
Loaded-cases bad_utf8 = inr (inl refl)
Loaded-cases (loaded v) = inr (inr (v, refl))

-- The reply grants: its `result` is true, or a dict whose `allow` is true.
pub data Grants : Value → Type 0 where
  by_bool : (body : Fields) → get body "result" ≡ some (bool true) → Grants (obj body)
  by_dict :
      (body result : Fields)
      → get body "result" ≡ some (obj result)
      → get result "allow" ≡ some (bool true)
      → Grants (obj body)

module _ (P : Platform) (client : PolicyClient) where
  granted :
      (body : Fields) (v : Value) (d : String)
      → get body "result" ≡ some v
      → (read_result P client v d).allow ≡ true
      → Grants (obj body)
  unfolding read_result
  granted body (bool b) d e h = by_bool body (rw h at e)
  granted body (obj result) d e h = by_dict body result e (ground arith)
  granted body _ d e h = cc

  Grants-read_body : (v : Value) (d : String) → (read_body P client v d).allow ≡ true → Grants v
  unfolding read_body
  Grants-read_body (obj body) d h = elim (Option-cases (get body "result")) [
    | inl e ↦ cc
    | inr (v, e) ↦ granted body v d e (rw (e, read_body) at h)
  ]
  Grants-read_body _ d h = cc

  read_body-Grants : (v : Value) (d : String) → Grants v → (read_body P client v d).allow ≡ true
  unfolding read_body
  read_body-Grants v d (by_bool body r) = ground arith
  read_body-Grants v d (by_dict body result r a) = ground arith

  texts-ne-nil :
      (v : Value) (vs : List Value) {cs : List String} → texts (v ∷ vs) ≡ some cs → cs ≢ []
  texts-ne-nil v vs h = ground arith

  reasons-with_codes :
      (b : Bool) (result : Fields) (d : String) → (with_codes P client b result d).reason_codes ≢ []
  unfolding with_codes
  reasons-with_codes b result d =
      elim (get result "reason_codes")
        as (λ o.
          (result_of P client b
            (elim (given_codes o) [ none ↦ default_code b ∷ [] | some codes ↦ codes ])
            d).reason_codes
          ≢ []) [
            | some (arr (cons v vs)) ↦ λ h. ground (arith, texts-ne-nil v (to_list vs))
            | none ↦ λ h. cc
            | _ ↦ λ h. cc
          ]

  reasons-read_result : (v : Value) (d : String) → (read_result P client v d).reason_codes ≢ []
  unfolding read_result
  reasons-read_result (obj result) d h =
      ground (arith, reasons-with_codes true result d, reasons-with_codes false result d)
  reasons-read_result _ d h = ground arith

  reasons-read_body : (v : Value) (d : String) → (read_body P client v d).reason_codes ≢ []
  unfolding read_body
  reasons-read_body (obj body) d h = elim (Option-cases (get body "result")) [
    | inl e ↦ ground arith
    | inr (v, e) ↦ reasons-read_result v d (rw (e, read_body) at h)
  ]
  reasons-read_body _ d h = ground arith

  module _ (server : Server) (point : String) (payload : Fields) where
    digest_here : String
    digest_here = compute_input_digest P client payload

    reply_here : Option (List ℕ)
    reply_here = server (request_url P client point) (request_body P client payload)

    evaluate_silent :
        reply_here ≡ none
        → evaluate P client server point payload
          ≡ ok (fail_closed P client reason_policy_unavailable digest_here)
    unfolding evaluate reply_here digest_here
    evaluate_silent h = rw (h, evaluate)

    evaluate_bad_json :
        (raw : List ℕ)
        → reply_here ≡ some raw
        → P.loads_bytes raw ≡ bad_json
        → evaluate P client server point payload
          ≡ ok (fail_closed P client reason_policy_malformed digest_here)
    unfolding evaluate reply_here digest_here
    evaluate_bad_json raw h e = rw (h, evaluate) (rw (e, parse_reply))

    evaluate_bad_utf8 :
        (raw : List ℕ)
        → reply_here ≡ some raw
        → P.loads_bytes raw ≡ bad_utf8
        → evaluate P client server point payload ≡ raised unicode_decode_error
    unfolding evaluate reply_here
    evaluate_bad_utf8 raw h e = rw (h, evaluate) (rw (e, parse_reply))

    evaluate_loaded :
        (raw : List ℕ) (v : Value)
        → reply_here ≡ some raw
        → P.loads_bytes raw ≡ loaded v
        → evaluate P client server point payload ≡ ok (read_body P client v digest_here)
    unfolding evaluate reply_here digest_here
    evaluate_loaded raw v h e = rw (h, evaluate) (rw (e, parse_reply))

    allow-Grants :
        (r : PolicyResult)
        → evaluate P client server point payload ≡ ok r
        → r.allow ≡ true
        → (raw : List ℕ) × (v : Value) × (reply_here ≡ some raw)
          × (P.loads_bytes raw ≡ loaded v)
          × Grants v
    allow-Grants r h a = elim (Option-cases reply_here) [
      | inl e ↦ cc (evaluate_silent e)
      | inr (raw, e) ↦ elim (Loaded-cases (P.loads_bytes raw)) [
        | inl j ↦ cc (evaluate_bad_json raw e j)
        | inr (inl j) ↦ cc (evaluate_bad_utf8 raw e j)
        | inr (inr (v, j)) ↦ (
          raw,
          v,
          e,
          j,
          Grants-read_body v digest_here (ground (arith, evaluate_loaded raw v e j)),
        )
      ]
    ]

  -- An evaluation allows exactly when the server replies, its reply is JSON, and the reply grants:
  -- its `result` is true, or is an object whose `allow` is true.
  pub evaluate-allow_iff :
      (server : Server) (point : String) (payload : Fields)
      → ((r : PolicyResult) × (evaluate P client server point payload ≡ ok r) × (r.allow ≡ true))
        ↔ ((raw : List ℕ) × (v : Value) × (server
                (request_url P client point)
                (request_body P client payload)
              ≡ some raw)
            × (P.loads_bytes raw ≡ loaded v)
            × Grants v)
  unfolding reply_here
  evaluate-allow_iff server point payload = (
    λ (r, h, a). allow-Grants server point payload r h a,
    λ (raw, v, e, j, g). (
      read_body P client v (digest_here server point payload),
      evaluate_loaded server point payload raw v e j,
      read_body-Grants v (digest_here server point payload) g,
    ),
  )

  -- The result of an evaluation has at least one reason code, whatever the server replies.
  pub reasons-evaluate :
      (server : Server) (point : String) (payload : Fields) (r : PolicyResult)
      → evaluate P client server point payload ≡ ok r
      → r.reason_codes ≢ []
  reasons-evaluate server point payload r h none_given =
      elim (Option-cases (reply_here server point payload)) [
        | inl e ↦ ground (arith, evaluate_silent server point payload e)
        | inr (raw, e) ↦ elim (Loaded-cases (P.loads_bytes raw)) [
          | inl j ↦ ground (arith, evaluate_bad_json server point payload raw e j)
          | inr (inl j) ↦ cc (evaluate_bad_utf8 server point payload raw e j)
          | inr (inr (v, j)) ↦
              reasons-read_body v (digest_here server point payload)
                (ground (arith, evaluate_loaded server point payload raw v e j))
        ]
      ]
