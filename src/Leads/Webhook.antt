-- ===== src/Leads/Webhook.antt =====
-- The delivery of a webhook, `deliverWebhook` and `testWebhook` of
-- apps/api/src/leads/leads.service.ts: two attempts at most, two seconds apart. The request is a
-- parameter: it answers with an HTTP status, or throws.
use site_foundry.Leads.Capture.{Site, Payload, given}
use site_foundry.Leads.Fields.{FieldMap}
use site_foundry.Effects.{
  bad_request, Result, ok, err, Act, pure, require, recover, catch, modify, continue, ◌>>=◌, ◌>>◌,
}
use site_foundry.Prelude.{
  ℕ, zero, suc, ◌≡◌, refl, Bool, true, false, ◌&&◌, Option, none, some, [], ◌∷◌, ltb, leb,
  if◌then◌else◌,
}
use site_foundry.Text.{Text, txt, is_empty}

module _ {O : Type 0} (post : Text → Payload → Act O ℕ) (wait : O → O) where
  -- `res.ok`
  abbrev is_ok : ℕ → Bool
  is_ok status = leb 200 status && ltb status 300

  -- one request; `false` is the end of the `try` block by an exception
  unfoldable pub request : Text → Payload → Act O Bool
  request url payload = catch (do status ← post url payload; pure (is_ok status)) (λ e. pure false)

  -- `deliverWebhook` with the attempts that are left after this one
  unfoldable pub deliver : ℕ → Text → Payload → Act O Bool
  deliver zero url payload = request url payload
  deliver (suc left) url payload = do
    done ← request url payload
    if done then pure true else (do modify wait; deliver left url payload)

  unfoldable pub deliver_webhook : Option Text → Payload → Act O Bool
  deliver_webhook none payload = pure false
  deliver_webhook (some url) payload = if is_empty url then pure false else deliver 1 url payload

  abbrev sample_fields : FieldMap
  sample_fields =
      (txt "name", txt "Test Lead")
      ∷ (txt "email", txt "test@example.com")
      ∷ (txt "phone", txt "+1 (555) 010-0000")
      ∷ []

  abbrev sample_utm : FieldMap
  sample_utm =
      (txt "source", txt "google")
      ∷ (txt "medium", txt "cpc")
      ∷ (txt "campaign", txt "webhook-test")
      ∷ []

  -- `testWebhook`, from the site that `assertSite` returned on
  unfoldable pub test_webhook : Site → Text → Act O Bool
  test_webhook site now = do
    url ← require (given site.lead_webhook_url) bad_request (txt "No webhook URL configured")
    deliver_webhook (some url) (record {
      site_id = site.id;
      site_name = site.name;
      site_domain = site.domain;
      lead_id = txt "00000000-0000-0000-0000-000000000000";
      fields = sample_fields;
      source_utm = some sample_utm;
      at = now;
    })

  -- What one request gives: whether it was answered well, and what it left behind.
  unfoldable pub answer : Result ℕ × O → Bool × O
  answer (ok status, o) = (is_ok status, o)
  answer (err e, o) = (false, o)

  -- What a delivery is meant to do: at most one retry, after a wait.
  unfoldable pub retried : Text → Payload → Bool × O → Bool × O
  retried url payload (true, o) = (true, o)
  retried url payload (false, o) = answer (post url payload (wait o))

  request_lem :
      (url : Text) (payload : Payload) (o : O)
      → request url payload o
        ≡ (ok (answer (post url payload o)).0, (answer (post url payload o)).1)
  unfolding request answer ◌>>=◌
  request_lem url payload o = go (post url payload o)
    where
      go :
          (p : Result ℕ × O)
          → recover (λ e w. (ok false, w)) (continue p.0 (λ status w. (ok (is_ok status), w)) p.1)
            ≡ (ok (answer p).0, (answer p).1)
      go (ok status, w) = refl
      go (err e, w) = refl

  -- A delivery to a configured URL never throws; it posts once, and once more, after the wait, only
  -- if the first request failed or was not answered with a status from 200 to 299; and it returns
  -- whether the last request was answered so.
  pub deliver_webhook_lem :
      (url : Text) (payload : Payload) (o : O)
      → is_empty url ≡ false
      → let last = retried url payload (answer (post url payload o)) in
        deliver_webhook (some url) payload o ≡ (ok last.0, last.1)
  unfolding deliver_webhook deliver retried ◌>>=◌
  deliver_webhook_lem url payload o h =
      rw (h, request_lem url payload o) (go (answer (post url payload o)))
    where
      go :
          (p : Bool × O)
          → (if p.0 then pure true else (modify wait >> request url payload)) p.1
            ≡ (ok (retried url payload p).0, (retried url payload p).1)
      go (true, w) = refl
      go (false, w) = request_lem url payload (wait w)
