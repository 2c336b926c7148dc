-- ===== src/Servers/HostKey.antt =====
-- The pinned host key of a server under connection tests.
use site_foundry.Servers.{Server, Services, Store, World, is_row, find_server}
use site_foundry.Users.{AuthUser}
use site_foundry.Servers.Ssh.{Attempt, opened, mismatch, failed, host_verifier}
use site_foundry.Servers.Connection.{
  Checked, TestedView, with_os, tested, test_found, test_connection,
}
use site_foundry.Servers.Opening.{Verified, AsksVerifier, open_session-Verified}
use site_foundry.Servers.Pinning.{Finds, is_row-id, tested-is_row, row, test_found_lem}
use site_foundry.Effects.{ok, ◌>>=◌}
use site_foundry.Prelude.{
  ℕ, ◌≡◌, refl, sym, ap, subst, ◌∙◌, true, false, some, arith, find, find-holds, find-edit_first,
}
use site_foundry.Text.{Text, text_eq_iff, is_empty}

tested-host_key :
    (server s : Server) (c : Checked) (time : ℕ) → (tested server c time s).host_key ≡ c.host_key
unfolding tested with_os
tested-host_key server s c time = ground arith

admitted_pin :
    (pin key : Text) → is_empty pin ≡ false → host_verifier (some pin) key ≡ true → key ≡ pin
unfolding host_verifier
admitted_pin pin key h v = ground (arith, text_eq_iff pin key)

Finds-pin :
    (server : Server) (a : Attempt) (c : Checked) (pin : Text)
    → server.host_key ≡ some pin
    → is_empty pin ≡ false
    → Verified server.host_key a
    → Finds server a c
    → c.host_key ≡ some pin
Finds-pin server (opened session) c pin h e v f =
    f
    ∙ ap some (
        admitted_pin pin session.host_key e
          (subst (λ p. host_verifier p session.host_key ≡ true) h v))
Finds-pin server (mismatch m) c pin h e v f = f ∙ h
Finds-pin server (failed m) c pin h e v f = f ∙ h

module _ (services : Services) where
  open services use {Outside}

  found_row :
      (user : AuthUser) (id : Text) (w : World Outside) (server : Server)
      → row services user.tenant_id id w ≡ some server
      → test_connection services user id w ≡ test_found services user server w
  unfolding test_connection find_server ◌>>=◌
  found_row user id w server h = rw h refl

  -- A connection test of a pinned server returns, leaves the pinned host key and the number of open
  -- sessions as they were, whether or not the server could be reached and whatever key it showed.
  pub test_connection-host_key :
      (asks : AsksVerifier services) (user : AuthUser) (id pin : Text) (w : World Outside)
      (server : Server)
      → row services user.tenant_id id w ≡ some server
      → server.host_key ≡ some pin
      → is_empty pin ≡ false
      → (v : TestedView) × (w' : World Outside) × (after : Server) × (test_connection services user
            id w
          ≡ (ok v, w'))
        × (w'.sessions ≡ w.sessions)
        × (row services user.tenant_id id w' ≡ some after)
        × (after.host_key ≡ some pin)
  test_connection-host_key asks user id pin w server h k e =
      let same = is_row-id user.tenant_id id w.servers server h in
      let here : row services user.tenant_id server.id w ≡ some server =
        subst (λ i. row services user.tenant_id i w ≡ some server) (sym same.0) h in
      let (a, w1, c, v, time, w', opens, finds, result, store) =
        test_found_lem services user server w here in
      let now_row =
        find-edit_first (is_row user.tenant_id server.id) (tested server c time) w.servers server
          here
          (tested-is_row user.tenant_id server.id server server c time
            (find-holds (is_row user.tenant_id server.id) w.servers server here)) in
      (
        v,
        w',
        tested server c time server,
        found_row user id w server h ∙ result,
        ap (λ (s : Store). s.sessions) store,
        subst (λ i. row services user.tenant_id i w' ≡ some (tested server c time server)) same.0
            (ap (λ (s : Store). find (is_row user.tenant_id server.id) s.servers) store ∙ now_row),
        tested-host_key server server c time
            ∙ Finds-pin server a c pin k e
                (open_session-Verified services asks server server.host_key w w1 a opens) finds,
      )
