-- ===== src/Servers/Opening.antt =====
-- What an attempt to open a session leaves: the store, with one more open session if it succeeded.
use site_foundry.Servers.{
  Server, Target, SshAuth, Handshake, established, broken, Services, World, call, is_credential,
}
use site_foundry.Servers.Ssh.{
  Attempt, opened, failed, host_verifier, conclude, enter, connect, open_session,
}
use site_foundry.Effects.{Result, ok, err, catch, ◌>>=◌}
use site_foundry.Effects.Cases.{Act-cases}
use site_foundry.Prelude.{
  ℕ, ◌≡◌, refl, ap, subst, inl, inr, Bool, true, ◌&&◌, not, Option, Bool-cases, Option-cases, find,
}
use site_foundry.Text.{Text, is_empty}

module _ (services : Services) where
  open services use {Outside, dial, decrypt, exec}

  abbrev pub Opens : Server → Option Text → World Outside → Type 0
  Opens server pin w =
      (a : Attempt) × (w' : World Outside) × (open_session services server pin w ≡ (ok a, w'))
      × (w'.store ≡ enter a w.store)

  pub open_session_lem :
      (server : Server) (pin : Option Text) (w : World Outside) → Opens server pin w
  unfolding open_session connect catch call ◌>>=◌ enter
  open_session_lem server pin w =
      elim (Option-cases
        (find (is_credential server.tenant_id server.credential_id) w.credentials)) [
          | inl missing ↦ rw missing (failed _, w, refl, refl)
          | inr (c, found) ↦ elim (Act-cases (decrypt c.secret w.outside)) [
            | inl (plaintext, o, e) ↦ rw (found, e) (_, _, refl, refl)
            | inr (thrown', o, e) ↦ rw (found, e) (failed _, _, refl, refl)
          ]
        ]

-- An opened session shows a key that the pin admits.
abbrev pub Verified : Option Text → Attempt → Type 0
Verified pin (opened session) = host_verifier pin session.host_key ≡ true
Verified pin _ = Unit

abbrev VerifiedResult : Option Text → Result Attempt → Type 0
VerifiedResult pin (ok a) = Verified pin a
VerifiedResult pin (err e) = Unit

-- What the SSH library documents of a host verifier: a handshake with a key that the verifier
-- refuses does not succeed.
abbrev pub AsksVerifier : Services → Type 0
AsksVerifier services =
    (target : Target) (auth : SshAuth) (verifier : Text → Bool) (o : services.Outside) (n : ℕ)
    (key : Text)
    → (services.dial target auth verifier o).0 ≡ established n key
    → verifier key ≡ true

conclude-Verified :
    (pin : Option Text) (h : Handshake)
    → ((n : ℕ) (key : Text) → h ≡ established n key → host_verifier pin key ≡ true)
    → Verified pin (conclude pin h)
unfolding conclude
conclude-Verified pin (established n key) asks = asks n key refl
conclude-Verified pin (broken observed message) asks =
    elim (Bool-cases (not (host_verifier pin observed) && not (is_empty observed))) [
      | inl wrong ↦ rw wrong tt
      | inr other ↦ rw other tt
    ]

module _ (services : Services) (asks : AsksVerifier services) where
  open services use {Outside, dial, decrypt}

  verified_lem :
      (server : Server) (pin : Option Text) (w : World Outside)
      → VerifiedResult pin (open_session services server pin w).0
  unfolding open_session connect catch call ◌>>=◌
  verified_lem server pin w =
      elim (Option-cases
        (find (is_credential server.tenant_id server.credential_id) w.credentials)) [
          | inl missing ↦ rw missing tt
          | inr (c, found) ↦ elim (Act-cases (decrypt c.secret w.outside)) [
            | inl (plaintext, o, e) ↦
                rw (found, e) (conclude-Verified pin _ (λ n key h. asks _ _ _ _ n key h))
            | inr (thrown', o, e) ↦ rw (found, e) tt
          ]
        ]

  pub open_session-Verified :
      (server : Server) (pin : Option Text) (w w' : World Outside) (a : Attempt)
      → open_session services server pin w ≡ (ok a, w')
      → Verified pin a
  open_session-Verified server pin w w' a e =
      subst (λ r. VerifiedResult pin r) (ap (λ p. p.0) e) (verified_lem server pin w)
