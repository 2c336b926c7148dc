-- ===== src/Servers/Ending.antt =====
-- The second probe of base provisioning, its last event, and the row that it leaves.
use site_foundry.Servers.{
  ready, Server, ProvisionEvent, Services, Store, World, call, change, is_row,
}
use site_foundry.Servers.Ssh.{Attempt, opened, mismatch, failed, enter}
use site_foundry.Servers.Opening.{open_session_lem}
use site_foundry.Servers.Provision.{complete_event, emit, probe_again, complete}
use site_foundry.Effects.{Result, ok, catch, ◌>>=◌}
use site_foundry.Effects.Cases.{Act-cases}
use site_foundry.Json.{Json}
use site_foundry.Prelude.{
  ◌≡◌, refl, ap, ◌∙◌, inl, inr, true, ◌&&◌, some, List, [], ◌∷◌, ◌++◌, find, edit_first, find-holds,
  find-edit_first,
}
use site_foundry.Text.{Text, text_eq}

pub servers_enter : (a : Attempt) (s : Store) → (enter a s).servers ≡ s.servers
unfolding enter
servers_enter (opened session) s = refl
servers_enter (mismatch m) s = refl
servers_enter (failed m) s = refl

pub stream_enter : (a : Attempt) (s : Store) → (enter a s).stream ≡ s.stream
unfolding enter
stream_enter (opened session) s = refl
stream_enter (mismatch m) s = refl
stream_enter (failed m) s = refl

-- The row that complete provisioning leaves
abbrev pub provisioned : Server → Json → Server
provisioned s facts = record s { base_provisioned = true; status = ready; facts = facts }

-- What is in the stream, and what the row of the server is.
pub record Ends {O : Type 0} (tenant id : Text) (before events : List ProvisionEvent) (s : Server)
    (r : Result (Unit {0}) × World O) : Type 0 where
  pub returned : r.0 ≡ ok tt
  pub stream : r.1.stream ≡ before ++ events
  pub row_is : find (is_row tenant id) r.1.servers ≡ some s

pub same_row :
    (tenant id : Text) (f : Server → Server) (ss : List Server) (s : Server)
    → find (is_row tenant id) ss ≡ some s
    → ((f s).id ≡ s.id)
    → ((f s).tenant_id ≡ s.tenant_id)
    → find (is_row tenant id) (edit_first (is_row tenant id) f ss) ≡ some (f s)
same_row tenant id f ss s h i t = find-edit_first (is_row tenant id) f ss s h (
    ap (λ k. text_eq (f s).tenant_id tenant && text_eq k id) i
    ∙ ap (λ k. text_eq k tenant && text_eq s.id id) t
    ∙ find-holds (is_row tenant id) ss s h)

module _ (services : Services) where
  open services use {Outside, probe_facts, sanitize_for_log, app_base_url}

  -- The store after the second probe: the session of a probe that throws stays open.
  probe_again_lem :
      (server : Server) (a : Attempt) (w : World Outside)
      → (facts : Json) × (w' : World Outside) × (probe_again services server a w ≡ (ok facts, w'))
        × (w'.servers ≡ w.servers)
        × (w'.stream ≡ w.stream)
  unfolding probe_again catch call change ◌>>=◌
  probe_again_lem server (mismatch m) w = (_, w, refl, refl, refl)
  probe_again_lem server (failed m) w = (_, w, refl, refl, refl)
  probe_again_lem server (opened session) w = elim (Act-cases (probe_facts session w.outside)) [
    | inl (facts, o, e) ↦ rw e (_, _, refl, refl, refl)
    | inr (thrown', o, e) ↦ rw e (_, _, refl, refl, refl)
  ]

  pub complete_lem :
      (tenant : Text) (server now_row : Server) (w : World Outside)
      → find (is_row tenant server.id) w.servers ≡ some now_row
      → (facts : Json) × Ends tenant server.id w.stream
          (complete_event ∷ [])
          (provisioned now_row facts)
          (complete services tenant server w)
  unfolding complete emit change ◌>>=◌
  complete_lem tenant server now_row w h =
      let (a, w1, e1, s1) = open_session_lem services server server.host_key w in
      let (facts, w2, e2, rows, yielded) = probe_again_lem server a w1 in
      let same : w2.servers ≡ w.servers =
        rows ∙ ap (λ (s : Store). s.servers) s1 ∙ servers_enter a w.store in
      let old : w2.stream ≡ w.stream =
        yielded ∙ ap (λ (s : Store). s.stream) s1 ∙ stream_enter a w.store in
      (
        facts,
        rw (e1, e2)
            (record {
              returned = refl;
              stream = ap (λ l. l ++ complete_event ∷ []) old;
              row_is =
                  same_row tenant server.id (λ s. provisioned s facts) w2.servers now_row
                    (ap (find (is_row tenant server.id)) same ∙ h) refl refl;
            }),
      )
