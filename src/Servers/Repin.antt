-- ===== src/Servers/Repin.antt =====
-- The two ends of a re-pin.
use site_foundry.Servers.{Server, Session, Services, World, is_row}
use site_foundry.Servers.Ssh.{opened, open_session}
use site_foundry.Servers.Service.{ServerView}
use site_foundry.Users.{AuthUser}
use site_foundry.Servers.Connection.{repinned}
use site_foundry.Effects.{bad_request, Result, ok, thrown}
use site_foundry.Json.{Json}
use site_foundry.Prelude.{ℕ, ◌≡◌, ◌⊎◌, none, List, edit_first}
use site_foundry.Text.{Text}

module _ (services : Services) where
  open services use {Outside, probe_facts, now}

  -- The server rows after a re-pin
  abbrev pub repinned_rows : AuthUser → Server → Text → Json → ℕ → List Server → List Server
  repinned_rows user server key facts time =
      edit_first (is_row user.tenant_id server.id) (repinned server key facts time)

  abbrev IsBadRequest : Result ServerView → Type 0
  IsBadRequest r = (message : Text) × (r ≡ thrown bad_request message)

  -- What a re-pin of `server` from the world `w` comes to
  abbrev pub Repins : AuthUser → Server → World Outside → Result ServerView × World Outside → Type 0
  Repins user server w r =
      (IsBadRequest r.0 × (r.1.store ≡ w.store))
      ⊎ ((session : Session) × (w1 : World Outside) × (facts : Json) × (time : ℕ) × (v : ServerView)
          × (open_session services server none w ≡ (ok (opened session), w1))
          × (r.0 ≡ ok v)
          × (r.1.servers ≡ repinned_rows user server session.host_key facts time w.servers)
          × (r.1.credentials ≡ w.credentials)
          × (r.1.sessions ≡ w.sessions))
