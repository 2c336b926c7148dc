-- ===== src/Servers/Transcript.antt =====
-- What provisioning yields, step by step, and how it leaves the row.

use mathlib.Core.List.{append_assoc, append-nil}
use site_foundry.Servers.{
  ServerStatus, error, Server, start, passed, fail, ProvisionEvent, Session, ExecResult, Services,
  World, call, change, is_row,
}
use site_foundry.Servers.Steps.{ProvisionStep}
use site_foundry.Servers.Provision.{
  is_success, event, emit, set_status, record_deploy_event, fail_step, pass_step, judge, attempt,
  run_step, run_steps,
}
use site_foundry.Effects.{Result, ok, err, ◌>>=◌}
use site_foundry.Prelude.{
  ◌≡◌, refl, sym, ap, ◌∙◌, ◌⊎◌, inl, inr, Bool, true, false, none, some, List, [], ◌∷◌, ◌++◌,
  Bool-cases, edit_first,
}
use site_foundry.Text.{Text}

-- The events of steps that all passed
abbrev pub passed_events : List ProvisionStep → List ProvisionEvent
passed_events [] = []
passed_events (s ∷ rest) = event s start none ∷ event s passed none ∷ passed_events rest

abbrev pub failed_events : ProvisionStep → Text → List ProvisionEvent
failed_events s detail = event s start none ∷ event s fail (some detail) ∷ []

abbrev pub marked : Text → Text → ServerStatus → List Server → List Server
marked tenant id status = edit_first (is_row tenant id) (λ s. record s { status = status })

module _ (services : Services) where
  open services use {Outside, exec}

  -- Every step passed.
  pub record IsPassed (w : World Outside) (events : List ProvisionEvent)
      (r : Result Bool × World Outside) : Type 0 where
    pub went_on : r.0 ≡ ok true
    pub stream : r.1.stream ≡ w.stream ++ events
    pub servers : r.1.servers ≡ w.servers
    pub sessions : r.1.sessions ≡ w.sessions

  -- A step failed, and the loop ended.
  pub record IsStopped (tenant id : Text) (w : World Outside) (events : List ProvisionEvent)
      (r : Result Bool × World Outside) : Type 0 where
    pub ended : r.0 ≡ ok false
    pub stream : r.1.stream ≡ w.stream ++ events
    pub servers : r.1.servers ≡ marked tenant id error w.servers
    pub sessions : r.1.sessions ≡ w.sessions

  abbrev StepEnds :
      Text → Text → ProvisionStep → World Outside → Result Bool × World Outside → Type 0
  StepEnds tenant id s w r =
      IsPassed w (passed_events (s ∷ [])) r
      ⊎ ((detail : Text) × IsStopped tenant id w (failed_events s detail) r)

  -- The world after the start of a step is reported
  record IsStarted (s : ProvisionStep) (w w1 : World Outside) : Type 0 where
    stream : w1.stream ≡ w.stream ++ event s start none ∷ []
    servers : w1.servers ≡ w.servers
    sessions : w1.sessions ≡ w.sessions

  fail_step_lem :
      (tenant id : Text) (s : ProvisionStep) (output detail : Text) (w w1 : World Outside)
      → IsStarted s w w1
      → StepEnds tenant id s w (fail_step services tenant id s output detail w1)
  unfolding fail_step record_deploy_event set_status emit change ◌>>=◌
  fail_step_lem tenant id s output detail w w1 h = inr (
    detail,
    record {
      ended = refl;
      stream = ap (λ l. l ++ event s fail (some detail) ∷ []) h.stream ∙ append_assoc w.stream _ _;
      servers = ap (marked tenant id error) h.servers;
      sessions = h.sessions;
    },
  )

  pass_step_lem :
      (tenant id : Text) (s : ProvisionStep) (r : ExecResult) (w w1 : World Outside)
      → IsStarted s w w1
      → StepEnds tenant id s w (pass_step services tenant id s r w1)
  unfolding pass_step record_deploy_event emit change ◌>>=◌
  pass_step_lem tenant id s r w w1 h = inl (record {
    went_on = refl;
    stream = ap (λ l. l ++ event s passed none ∷ []) h.stream ∙ append_assoc w.stream _ _;
    servers = h.servers;
    sessions = h.sessions;
  })

  judge_lem :
      (tenant id : Text) (s : ProvisionStep) (result : Result ExecResult) (w w1 : World Outside)
      → IsStarted s w w1
      → StepEnds tenant id s w (judge services tenant id s result w1)
  unfolding judge
  judge_lem tenant id s (err e) w w1 h =
      fail_step_lem tenant id s e.message (services.sanitize_for_log e.message) w w1 h
  judge_lem tenant id s (ok r) w w1 h = elim (Bool-cases (is_success r)) [
    | inl good ↦ rw good (pass_step_lem tenant id s r w w1 h)
    | inr bad ↦ rw bad (fail_step_lem tenant id s _ _ w w1 h)
  ]

  run_step_lem :
      (tenant id : Text) (session : Session) (s : ProvisionStep) (w : World Outside)
      → StepEnds tenant id s w (run_step services tenant id session s w)
  unfolding run_step attempt call record_deploy_event emit change ◌>>=◌
  run_step_lem tenant id session s w =
      let (r, o) = exec session s.command 300000 w.outside in
      judge_lem tenant id s r w _ (record { stream = refl; servers = refl; sessions = refl })

  -- How the loop ends: all steps passed, or the first that failed ended it.
  abbrev pub RunEnds :
      Text → Text → List ProvisionStep → World Outside → Result Bool × World Outside → Type 0
  RunEnds tenant id steps w r =
      IsPassed w (passed_events steps) r
      ⊎ ((before : List ProvisionStep) × (s : ProvisionStep) × (after : List ProvisionStep)
          × (detail : Text) × (steps ≡ before ++ s ∷ after)
          × IsStopped tenant id w (passed_events before ++ failed_events s detail) r)

  pub run_steps_lem :
      (tenant id : Text) (session : Session) (steps : List ProvisionStep) (w : World Outside)
      → RunEnds tenant id steps w (run_steps services tenant id session steps w)
  unfolding run_steps ◌>>=◌
  run_steps_lem tenant id session [] w = inl (record {
    went_on = refl;
    stream = sym (append-nil w.stream);
    servers = refl;
    sessions = refl;
  })
  run_steps_lem tenant id session (s ∷ steps) w =
      let w1 = (run_step services tenant id session s w).1 in
      elim (run_step_lem tenant id session s w) [
        | inl p ↦ rw p.went_on (elim (run_steps_lem tenant id session steps w1) [
          | inl q ↦ inl (record {
            went_on = q.went_on;
            stream =
                q.stream ∙ ap (λ l. l ++ passed_events steps) p.stream ∙ append_assoc w.stream _ _;
            servers = q.servers ∙ p.servers;
            sessions = q.sessions ∙ p.sessions;
          })
          | inr (before, t, after, detail, parts, q) ↦ inr (
            s ∷ before,
            t,
            after,
            detail,
            ap (λ l. s ∷ l) parts,
            record {
              ended = q.ended;
              stream =
                  q.stream
                  ∙ ap (λ l. l ++ (passed_events before ++ failed_events t detail)) p.stream
                  ∙ append_assoc w.stream _ _;
              servers = q.servers ∙ ap (marked tenant id error) p.servers;
              sessions = q.sessions ∙ p.sessions;
            },
          )
        ])
        | inr (detail, q) ↦ rw q.ended (
            inr (
              [],
              s,
              steps,
              detail,
              refl,
              record {
                ended = refl;
                stream = q.stream;
                servers = q.servers;
                sessions = q.sessions;
              },
            ))
      ]
