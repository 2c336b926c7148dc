-- ===== src/Servers/Provisioned.antt =====
-- How base provisioning ends: its events and the row.
use mathlib.Core.List.{append_assoc}
use site_foundry.Servers.{
  provisioning_base, unreachable, error, Server, Session, Services, Store, World, change, is_row,
  edit_server, find_server,
}
use site_foundry.Users.{AuthUser}
use site_foundry.Servers.Ssh.{Attempt, opened, mismatch, failed, close_session}
use site_foundry.Servers.Opening.{open_session_lem}
use site_foundry.Servers.Pinning.{is_row-id}
use site_foundry.Servers.Ending.{
  servers_enter, stream_enter, provisioned, Ends, same_row, complete_lem,
}
use site_foundry.Servers.Steps.{ProvisionStep, build_provision_steps}
use site_foundry.Servers.Provision.{
  complete_event, connect_failed, emit, set_status, run_steps, refuse, provision_on, provision_base,
}
use site_foundry.Servers.Transcript.{passed_events, failed_events, RunEnds, run_steps_lem}
use site_foundry.Effects.{Result, finally, ◌>>=◌}
use site_foundry.Json.{Json}
use site_foundry.Prelude.{◌≡◌, refl, sym, ap, subst, ◌∙◌, inl, inr, some, List, [], ◌∷◌, ◌++◌, find}
use site_foundry.Text.{Text}

module _ (services : Services) where
  open services use {Outside, app_base_url}

  -- How provisioning ends: complete, at a step that failed, or with no session.
  pub data Outcome (tenant : Text) (server : Server) (w : World Outside)
      (r : Result (Unit {0}) × World Outside) : Type 0 where
    completed :
        (facts : Json)
        → Ends tenant server.id w.stream
            (passed_events (build_provision_steps app_base_url) ++ complete_event ∷ [])
            (provisioned server facts)
            r
        → Outcome tenant server w r
    stopped :
        (before after : List ProvisionStep) (s : ProvisionStep) (detail : Text)
        → build_provision_steps app_base_url ≡ before ++ s ∷ after
        → Ends tenant server.id w.stream
            (passed_events before ++ failed_events s detail)
            (record server { status = error })
            r
        → Outcome tenant server w r
    refused :
        (detail : Text)
        → Ends tenant server.id w.stream
            (connect_failed detail ∷ [])
            (record server { status = unreachable })
            r
        → Outcome tenant server w r

  abbrev in_progress : Server → Server
  in_progress server = record server { status = provisioning_base }

  -- After the first attempt: the row is in progress and the stream is as it was.
  record IsTried (tenant : Text) (server : Server) (w w1 : World Outside) : Type 0 where
    stream : w1.stream ≡ w.stream
    row_is : find (is_row tenant server.id) w1.servers ≡ some (in_progress server)

  refuse_lem :
      (tenant : Text) (server : Server) (detail : Text) (w w1 : World Outside)
      → IsTried tenant server w w1
      → Outcome tenant server w (refuse services tenant server detail w1)
  unfolding refuse set_status emit change ◌>>=◌
  refuse_lem tenant server detail w w1 h = refused detail (record {
    returned = refl;
    stream = ap (λ l. l ++ connect_failed detail ∷ []) h.stream;
    row_is =
        same_row tenant server.id (λ s. record s { status = unreachable }) w1.servers
          (in_progress server) h.row_is refl refl;
  })

  finished_lem :
      (tenant : Text) (server : Server) (session : Session) (w w1 : World Outside)
      → IsTried tenant server w w1
      → RunEnds services tenant server.id
          (build_provision_steps app_base_url)
          w1
          (run_steps services tenant server.id session (build_provision_steps app_base_url) w1)
      → Outcome tenant server w (provision_on services tenant server (opened session) w1)
  unfolding provision_on finally ◌>>=◌
  finished_lem tenant server session w w1 h (inl p) =
      let r = run_steps services tenant server.id session (build_provision_steps app_base_url) w1 in
      let closed : World Outside = record {
        store = close_session r.1.store;
        outside = r.1.outside;
      } in
      let (facts, e) =
        complete_lem services tenant server (in_progress server) closed
          (ap (find (is_row tenant server.id)) p.servers ∙ h.row_is) in
      rw p.went_on (
        completed facts (record {
          returned = e.returned;
          stream =
              e.stream
              ∙ ap (λ l. l ++ complete_event ∷ []) p.stream
              ∙ append_assoc w1.stream _ _
              ∙ ap
                  (λ l.
                    l
                    ++ (passed_events (build_provision_steps app_base_url) ++ complete_event ∷ []))
                  h.stream;
          row_is = e.row_is;
        }))
  finished_lem tenant server session w w1 h (inr (before, s, after, detail, parts, q)) =
      rw q.ended (
        stopped before after s detail parts (record {
          returned = refl;
          stream =
              q.stream ∙ ap (λ l. l ++ (passed_events before ++ failed_events s detail)) h.stream;
          row_is =
              ap (find (is_row tenant server.id)) q.servers
              ∙ same_row tenant server.id (λ s. record s { status = error }) w1.servers
                  (in_progress server) h.row_is refl refl;
        }))

  provision_on_lem :
      (tenant : Text) (server : Server) (a : Attempt) (w w1 : World Outside)
      → IsTried tenant server w w1
      → Outcome tenant server w (provision_on services tenant server a w1)
  unfolding provision_on
  provision_on_lem tenant server (opened session) w w1 h =
      finished_lem tenant server session w w1 h
        (run_steps_lem services tenant server.id session (build_provision_steps app_base_url) w1)
  provision_on_lem tenant server (mismatch m) w w1 h = refuse_lem tenant server m w w1 h
  provision_on_lem tenant server (failed m) w w1 h = refuse_lem tenant server _ w w1 h

  abbrev marked_world : AuthUser → Text → World Outside → World Outside
  marked_world user id w = record {
    store = edit_server user.tenant_id id in_progress w.store;
    outside = w.outside;
  }

  -- Base provisioning of a server returns, and ends in one of three ways. Every step passed: the
  -- stream has start and ok of each step in order and then `complete`, and the row is ready and
  -- marked as provisioned. A step failed: the steps before it passed, its failure is the last
  -- event, no later step is started, and the row has status error and is otherwise as it was. No
  -- session could be opened: that is the only event, and the row has status unreachable.
  pub provision_base_lem :
      (user : AuthUser) (id : Text) (w : World Outside) (server : Server)
      → find (is_row user.tenant_id id) w.servers ≡ some server
      → Outcome user.tenant_id server w (provision_base services user id w)
  unfolding provision_base find_server set_status change ◌>>=◌
  provision_base_lem user id w server h =
      let same = (is_row-id user.tenant_id id w.servers server h).0 in
      let w0 = marked_world user id w in
      let (a, w1, e, s1) = open_session_lem services server server.host_key w0 in
      rw (h, e)
        (provision_on_lem user.tenant_id server a w w1 (record {
          stream = ap (λ (s : Store). s.stream) s1 ∙ stream_enter a w0.store;
          row_is =
              ap (λ (s : Store). find (is_row user.tenant_id server.id) s.servers) s1
              ∙ ap (find (is_row user.tenant_id server.id)) (servers_enter a w0.store)
              ∙ subst (λ i. find (is_row user.tenant_id i) w0.servers ≡ some (in_progress server))
                  (sym same) (same_row user.tenant_id id in_progress w.servers server h refl refl);
        }))
