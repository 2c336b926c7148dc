-- ===== src/Servers/Stream.antt =====
-- The end of the stream that the dashboard reads.
use mathlib.Core.List.{append_assoc}
use site_foundry.Servers.{
  Server, start, fail, done, ProvisionEvent, Services, World, change, is_row, find_server,
}
use site_foundry.Users.{is_viewer, AuthUser}
use site_foundry.Servers.Provision.{
  event, complete_event, connect_failed, emit, provision_base, handle_provision,
}
use site_foundry.Servers.Provisioned.{Outcome, completed, stopped, refused, provision_base_lem}
use site_foundry.Servers.Transcript.{passed_events}
use site_foundry.Effects.{Exception, Result, ok, err, Act, recover, catch, ◌>>=◌}
use site_foundry.Prelude.{
  ◌≡◌, refl, sym, ap, subst, ◌∙◌, ◌⊎◌, inl, inr, false, none, some, List, [], ◌∷◌, ◌++◌,
  Option-cases, find,
}
use site_foundry.Text.{Text}

-- The last event is a failure or the end.
abbrev pub IsClosed : List ProvisionEvent → Type 0
IsClosed events =
    (front : List ProvisionEvent) × (last : ProvisionEvent) × (events ≡ front ++ last ∷ [])
    × ((last.status ≡ fail) ⊎ (last.status ≡ done))

recover_ok :
    {A W : Type 0} {a : A} (handler : Exception → Act W A) (r : Result A × W)
    → r.0 ≡ ok a
    → recover handler r ≡ r
recover_ok handler (ok b, w) h = refl
recover_ok handler (err e, w) h = absurd (cc)

module _ (services : Services) where
  open services use {Outside}

  Outcome-IsClosed :
      (tenant : Text) (server : Server) (w : World Outside) (r : Result (Unit {0}) × World Outside)
      → Outcome services tenant server w r
      → (r.0 ≡ ok tt) × IsClosed r.1.stream
  Outcome-IsClosed tenant server w r (completed facts e) =
      (e.returned, (_, complete_event, e.stream ∙ sym (append_assoc w.stream _ _), inr refl))
  Outcome-IsClosed tenant server w r (stopped before after s detail parts e) =
      let front = passed_events before ++ event s start none ∷ [] in
      let last = event s fail (some detail) in
      let regrouped = append_assoc (passed_events before) (event s start none ∷ []) (last ∷ []) in
      (
        e.returned,
        (
          w.stream ++ front,
          last,
          e.stream ∙ ap (λ l. w.stream ++ l) (sym regrouped) ∙ sym (append_assoc w.stream _ _),
          inl refl,
        ),
      )
  Outcome-IsClosed tenant server w r (refused detail e) =
      (e.returned, (w.stream, connect_failed detail, e.stream, inl refl))

  unmasked :
      (user : AuthUser) (id : Text) (w : World Outside)
      → is_viewer user.role ≡ false
      → (provision_base services user id w).0 ≡ ok tt
      → handle_provision services user id w ≡ provision_base services user id w
  unfolding handle_provision catch ◌>>=◌
  unmasked user id w may h = rw may (recover_ok _ _ h)

  -- Whoever may provision gets a stream whose last event is a failure or the end, whatever the
  -- server, the session and the commands do, and also if there is no such server.
  pub handle_provision-IsClosed :
      (user : AuthUser) (id : Text) (w : World Outside)
      → is_viewer user.role ≡ false
      → IsClosed (handle_provision services user id w).1.stream
  unfolding handle_provision provision_base find_server catch emit change ◌>>=◌
  handle_provision-IsClosed user id w may =
      elim (Option-cases (find (is_row user.tenant_id id) w.servers)) [
        | inl missing ↦ rw (may, missing) (w.stream, _, refl, inl refl)
        | inr (server, found) ↦
            let (returned, closed) =
              Outcome-IsClosed user.tenant_id server w _
                (provision_base_lem services user id w server found) in
            subst (λ r. IsClosed r.1.stream) (sym (unmasked user id w may returned)) closed
      ]
