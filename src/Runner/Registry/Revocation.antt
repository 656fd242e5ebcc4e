-- ===== src/Runner/Registry/Revocation.antt =====
-- `finish` and `start` of the registry of runs, and the check of tokens behind them.
use ai_dev_project.Prelude.{
  String, ◌≡◌, ◌≢◌, ap, refl, true, false, some, ◌==◌, arith, eq_iff, eq_refl, Option-cases,
  Bool-cases, inl, inr,
}
use ai_dev_project.Prelude.Dict.{lookup, put, lookup-put}
use ai_dev_project.Prelude.Int.{ℤ}
use ai_dev_project.Python.{ok, >>=-eq-ok}
use ai_dev_project.Json.{Fields}
use ai_dev_project.Prelude.Text.{is_blank}
use ai_dev_project.Platform.{Platform}
use ai_dev_project.Runner.Capability.{Capability, CapabilityCheck, DecodeResult, decode_token}
use ai_dev_project.Runner.Registry.{Run, RunRegistry, check_decoded, check, finish, start}
use ai_dev_project.Runner.Registry.Checks.{
  check_sound, run_id-judge, judge_lem, Holds, Holds-judge, judge-Holds,
}

-- What `finish` does to the runs.
finish_lem :
    (r r' : RunRegistry) (id : String)
    → finish r id ≡ ok r'
    → (run : Run) × (lookup id r.runs ≡ some run)
      × (r' ≡ record r { runs = put id (record run { finished = true }) r.runs })
unfolding finish
finish_lem r r' id h = elim (Option-cases (lookup id r.runs)) [
  | inl e ↦ ground (arith, e)
  | inr (run, e) ↦ (run, e, ground (arith, e))
]

check_decoded_ne :
    (r : RunRegistry) (id : String) (run : Run) (d : DecodeResult) (tool scope : String) (now : ℤ)
    (k : CapabilityCheck)
    → ok (check_decoded r d tool scope now) ≡ ok k
    → k.run_id ≢ some id
    → ok (check_decoded (record r { runs = put id run r.runs }) d tool scope now) ≡ ok k
unfolding check_decoded
check_decoded_ne r id run d tool scope now k h other = elim (Option-cases d.capability) [
  | inl e ↦ ground (arith, e)
  | inr (c, e) ↦ ground (
    arith,
    e,
    run_id-judge r c tool scope now,
    eq_iff id c.run_id,
    lookup-put id c.run_id run r.runs,
    judge_lem r c tool scope now (record r { runs = put id run r.runs }),
  )
]

module _ (P : Platform) (r r' : RunRegistry) (id : String) (finished : finish r id ≡ ok r') where
  -- After `finish` no token is accepted for that run, for any tool and scope and at any time.
  pub check-finish :
      (token tool scope : String) (now : ℤ) (k : CapabilityCheck)
      → check P r' token tool scope now ≡ ok k
      → k.valid ≡ true
      → k.run_id ≢ some id
  check-finish token tool scope now k h v same =
      let (run, known, changed) = finish_lem r r' id finished in
      let (c, e, s, shape, signed, payload, holds, named) =
        check_sound P r' token tool scope now k h v in
      ground (
        arith,
        holds.registered,
        holds.live,
        changed,
        named,
        same,
        lookup-put id c.run_id (record run { finished = true }) r.runs,
        eq_refl id,
      )

  -- `finish` changes no check that names another run, or none.
  pub check-finish_ne :
      (token tool scope : String) (now : ℤ) (k : CapabilityCheck)
      → check P r token tool scope now ≡ ok k
      → k.run_id ≢ some id
      → check P r' token tool scope now ≡ ok k
  unfolding check
  check-finish_ne token tool scope now k h other =
      let (run, known, changed) = finish_lem r r' id finished in
      let (d, decoded, checked) =
        >>=-eq-ok (decode_token P r.secret token) (λ d. ok (check_decoded r d tool scope now)) h in
      rw (changed, check)
        (rw decoded
          (check_decoded_ne r id (record run { finished = true }) d tool scope now k checked other))

abbrev twice_put : String → Run → Run → RunRegistry → RunRegistry
twice_put id new old r = record r { runs = put id new (put id old r.runs) }

Holds-twice_put :
    (id : String) (new old : Run) (r : RunRegistry) (c : Capability) (tool scope : String) (now : ℤ)
    → new.finished ≡ false
    → Holds r c tool scope now
    → Holds (twice_put id new old r) c tool scope now
Holds-twice_put id new old r c tool scope now live h =
    let first = lookup-put id c.run_id new (put id old r.runs) in
    let second = lookup-put id c.run_id old r.runs in
    elim (Bool-cases (id == c.run_id)) [
      | inl e ↦ record {
        run = new;
        registered = ground (arith, e, first);
        live = live;
        fresh = h.fresh;
        same_tool = h.same_tool;
        same_scope = h.same_scope;
      }
      | inr e ↦ record {
        run = h.run;
        registered = ground (arith, e, first, second, h.registered);
        live = h.live;
        fresh = h.fresh;
        same_tool = h.same_tool;
        same_scope = h.same_scope;
      }
    ]

start_lem :
    (r : RunRegistry) (actor : Fields) (id uuid : String) (at : ℤ)
    → is_blank id ≡ false
    → (start r actor (some id) uuid at).1 ≡ record r {
      runs =
          put id (record { run_id = id; actor = actor; created_at = at; finished = false }) r.runs;
    }
unfolding start
start_lem r actor id uuid at h = rw h

check_decoded-twice_put :
    (id : String) (new old : Run) (r : RunRegistry) (d : DecodeResult) (tool scope : String)
    (now : ℤ) (k : CapabilityCheck)
    → new.finished ≡ false
    → check_decoded r d tool scope now ≡ k
    → k.valid ≡ true
    → check_decoded (twice_put id new old r) d tool scope now ≡ k
unfolding check_decoded
check_decoded-twice_put id new old r d tool scope now k live h v =
    elim (Option-cases d.capability) [
      | inl e ↦ ground (arith, e)
      | inr (c, e) ↦
          let held : Holds r c tool scope now =
            Holds-judge r c tool scope now (ground (arith, e)) in
          let kept = Holds-twice_put id new old r c tool scope now live held in
          ground (
            arith,
            e,
            judge-Holds r c tool scope now held,
            judge-Holds (twice_put id new old r) c tool scope now kept,
          )
    ]

-- Starting a run under the id of a finished run gives back every token that was accepted before.
pub check-restart :
    (P : Platform) (r r' : RunRegistry) (id : String) (actor : Fields) (uuid : String) (at now : ℤ)
    (token tool scope : String) (k : CapabilityCheck)
    → finish r id ≡ ok r'
    → is_blank id ≡ false
    → check P r token tool scope now ≡ ok k
    → k.valid ≡ true
    → check P (start r' actor (some id) uuid at).1 token tool scope now ≡ ok k
unfolding check
check-restart P r r' id actor uuid at now token tool scope k finished named h v =
    let (run, known, changed) = finish_lem r r' id finished in
    let (d, decoded, checked) =
      >>=-eq-ok (decode_token P r.secret token) (λ d. ok (check_decoded r d tool scope now)) h in
    let new : Run = record { run_id = id; actor = actor; created_at = at; finished = false } in
    let old : Run = record run { finished = true } in
    rw (start_lem r' actor id uuid at named, changed)
      (rw decoded (
        ap ok (
          check_decoded-twice_put id new old r d tool scope now k refl (ground (arith, checked))
            v)))
