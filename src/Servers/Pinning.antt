-- ===== src/Servers/Pinning.antt =====
-- What a connection test and a re-pin write, and what they leave.
use site_foundry.Servers.{
  Server, Services, Store, World, call, change, is_row, edit_server, edit_credential, find_server,
}
use site_foundry.Users.{AuthUser}
use site_foundry.Servers.Ssh.{Attempt, opened, mismatch, failed, enter, close_session, open_session}
use site_foundry.Servers.Service.{show_server}
use site_foundry.Servers.Connection.{
  Checked, TestedView, tested, probe, check, write_tested, finish_test, test_found,
}
use site_foundry.Servers.Opening.{open_session_lem}
use site_foundry.Effects.{ok, catch, finally, ◌>>=◌}
use site_foundry.Effects.Cases.{Act-cases}
use site_foundry.Prelude.{
  ℕ, ◌≡◌, refl, ap, ◌∙◌, inl, inr, true, Option, some, List, arith, find, find-holds,
  find-edit_first,
}
use site_foundry.Text.{Text, text_eq_iff}

leave : Attempt → Store → Store
leave (opened session) s = close_session s
leave _ s = s

leave-enter : (a : Attempt) (s : Store) → leave a (enter a s) ≡ s
unfolding leave enter
leave-enter (opened session) s = ap (λ n. record s { sessions = n }) (omega arith)
leave-enter (mismatch m) s = refl
leave-enter (failed m) s = refl

-- What `check` finds: a key only from an opened session.
abbrev pub Finds : Server → Attempt → Checked → Type 0
Finds server (opened session) c = c.host_key ≡ some session.host_key
Finds server _ c = c.host_key ≡ server.host_key

pub is_row-id :
    (tenant id : Text) (xs : List Server) (s : Server)
    → find (is_row tenant id) xs ≡ some s
    → (s.id ≡ id) × (s.tenant_id ≡ tenant)
is_row-id tenant id xs s h = ground (
  arith,
  find-holds (is_row tenant id) xs s h,
  text_eq_iff s.tenant_id tenant,
  text_eq_iff s.id id,
)

pub tested-is_row :
    (tenant id : Text) (server s : Server) (c : Checked) (time : ℕ)
    → is_row tenant id s ≡ true
    → is_row tenant id (tested server c time s) ≡ true
unfolding tested
tested-is_row tenant id server s c time h = ground arith

module _ (services : Services) where
  open services use {Outside, probe_facts, dial, now}

  check_lem :
      (server : Server) (a : Attempt) (w : World Outside)
      → (c : Checked) × (w' : World Outside) × (check services server a w ≡ (ok c, w'))
        × (w'.store ≡ leave a w.store)
        × Finds server a c
  unfolding check probe finally catch call leave ◌>>=◌
  check_lem server (mismatch m) w = (_, w, refl, refl, refl)
  check_lem server (failed m) w = (_, w, refl, refl, refl)
  check_lem server (opened session) w = elim (Act-cases (probe_facts session w.outside)) [
    | inl (facts, o, e) ↦ rw e (_, _, refl, refl, refl)
    | inr (thrown', o, e) ↦ rw e (_, _, refl, refl, refl)
  ]

  -- The row of the tenant with an id
  abbrev pub row : Text → Text → World Outside → Option Server
  row tenant id w = find (is_row tenant id) w.servers

  -- What a test leaves in the store
  abbrev pub after_test : AuthUser → Server → Checked → ℕ → Store → Store
  after_test user server c time s = edit_server user.tenant_id server.id (tested server c time) (
      edit_credential user.tenant_id server.credential_id
        (λ r. record r { last_used_at = some time }) s)

  finish_test_lem :
      (user : AuthUser) (server : Server) (c : Checked) (w : World Outside)
      → row user.tenant_id server.id w ≡ some server
      → (v : TestedView) × (time : ℕ) × (w' : World Outside) × (finish_test services user server c w
          ≡ (ok v, w'))
        × (w'.store ≡ after_test user server c time w.store)
  unfolding finish_test write_tested show_server find_server change ◌>>=◌
  finish_test_lem user server c w h =
      let now_row =
        find-edit_first (is_row user.tenant_id server.id) (tested server c (now w.outside))
          w.servers server h
          (tested-is_row user.tenant_id server.id server server c (now w.outside)
            (find-holds (is_row user.tenant_id server.id) w.servers server h)) in
      rw now_row (_, now w.outside, _, refl, refl)

  pub test_found_lem :
      (user : AuthUser) (server : Server) (w : World Outside)
      → row user.tenant_id server.id w ≡ some server
      → (a : Attempt) × (w1 : World Outside) × (c : Checked) × (v : TestedView) × (time : ℕ)
        × (w' : World Outside) × (open_session services server server.host_key w ≡ (ok a, w1))
        × Finds server a c
        × (test_found services user server w ≡ (ok v, w'))
        × (w'.store ≡ after_test user server c time w.store)
  unfolding test_found ◌>>=◌
  test_found_lem user server w h =
      let (a, w1, e1, s1) = open_session_lem services server server.host_key w in
      let (c, w2, e2, s2, finds) = check_lem server a w1 in
      let same : w2.store ≡ w.store = s2 ∙ ap (leave a) s1 ∙ leave-enter a w.store in
      let (v, time, w', e3, s3) =
        finish_test_lem user server c w2
          (ap (λ (s : Store). find (is_row user.tenant_id server.id) s.servers) same ∙ h) in
      (
        a,
        w1,
        c,
        v,
        time,
        w',
        e1,
        finds,
        rw (e1, e2) e3,
        s3 ∙ ap (after_test user server c time) same,
      )
