-- ===== src/RateLimiter/Keys.antt =====
-- The calls of one key, beside a limiter of its own that keeps a log.
use site_foundry.RateLimiter.{Limits, Buckets, get, set, is_recent, recent, allow, Call, run}
use site_foundry.RateLimiter.Window.{IsOrdered, Fits, get-allow, allow_iff}
use site_foundry.Prelude.{
  ℕ, ◌+◌, ◌≤◌, ◌≡◌, refl, sym, ap, subst, ◌∙◌, inl, inr, Bool, false, List, [], ◌∷◌, ◌++◌, arith,
  ltb, if◌then◌else◌, Bool-cases, or_else, length, keep,
}
use site_foundry.Text.{Text, text_eq, text_eq_iff, text_eq_refl}

-- The times of a log that are in the window at `now`
abbrev pub in_view : Limits → ℕ → List ℕ → ℕ
in_view c now log = length (keep (is_recent now c.window_ms) log)

abbrev next_log : Limits → ℕ → List ℕ → List ℕ
next_log c now log = if ltb (in_view c now log) c.limit then log ++ now ∷ [] else log

-- The abstract limiter of one caller: a call is admitted when fewer than the limit of the calls
-- admitted before it are in its window; nothing is ever dropped from the log.
abbrev pub log_run : Limits → List ℕ → List Call → List (Call × Bool)
log_run c log [] = []
log_run c log (call ∷ calls) =
    (call, ltb (in_view c call.at log) c.limit) ∷ log_run c (next_log c call.at log) calls

abbrev pub calls_of : Text → List Call → List Call
calls_of key calls = keep (λ (call : Call). text_eq call.key key) calls

abbrev pub answers_to : Text → List (Call × Bool) → List (Call × Bool)
answers_to key answers = keep (λ (r : Call × Bool). text_eq r.0.key key) answers

abbrev bucket : Text → Buckets → List ℕ
bucket key b = or_else (get key b) []

-- What a call makes of the bucket of its key
abbrev next_bucket : Limits → ℕ → List ℕ → List ℕ
next_bucket c now hits =
    let kept = keep (is_recent now c.window_ms) hits in
    if ltb (in_view c now hits) c.limit then kept ++ now ∷ [] else kept

-- From `t` on, a bucket and a log count the same.
abbrev Agree : Limits → ℕ → List ℕ → List ℕ → Type 0
Agree c t hits log = (T : ℕ) → t ≤ T → in_view c T hits ≡ in_view c T log

in_view-keep :
    (c : Limits) (now T : ℕ) (hits : List ℕ)
    → now ≤ T
    → in_view c T (keep (is_recent now c.window_ms) hits) ≡ in_view c T hits
in_view-keep c now T [] h = refl
in_view-keep c now T (t ∷ hits) h = ground (arith, in_view-keep c now T hits h)

in_view-append :
    (c : Limits) (T now : ℕ) (hits : List ℕ)
    → in_view c T (hits ++ now ∷ []) ≡ in_view c T hits + in_view c T (now ∷ [])
in_view-append c T now [] = omega arith
in_view-append c T now (t ∷ hits) = ground (arith, in_view-append c T now hits)

Agree-next :
    (c : Limits) (t now : ℕ) (hits log : List ℕ)
    → t ≤ now
    → Agree c t hits log
    → Agree c now (next_bucket c now hits) (next_log c now log)
Agree-next c t now hits log le same T later =
    let at_T = in_view-keep c now T hits later ∙ same T (omega arith) in
    rw (same now le) (elim (Bool-cases (ltb (in_view c now log) c.limit)) [
      | inl fewer ↦ rw fewer (
          in_view-append c T now (keep (is_recent now c.window_ms) hits)
          ∙ ap (λ n. n + in_view c T (now ∷ [])) at_T
          ∙ sym (in_view-append c T now log))
      | inr full ↦ rw full at_T
    ])

module _ (c : Limits) (b : Buckets) (call : Call) (key : Text) where
  answer_same :
      call.key ≡ key
      → (allow c call.key call.at b).0 ≡ ltb (in_view c call.at (bucket key b)) c.limit
  unfolding recent
  answer_same same =
      allow_iff c call.key call.at b ∙ ap (λ k. ltb (in_view c call.at (bucket k b)) c.limit) same

  bucket_same :
      length (set call.key (recent c call.key call.at b ++ call.at ∷ []) b) ≤ c.max_keys
      → call.key ≡ key
      → bucket key (allow c call.key call.at b).1 ≡ next_bucket c call.at (bucket key b)
  unfolding recent
  bucket_same fits same =
      subst (λ k. bucket k (allow c call.key call.at b).1 ≡ next_bucket c call.at (bucket k b)) same
        (rw
          (
            get-allow c call.key call.at b call.key fits,
            text_eq_refl call.key,
            allow_iff c call.key call.at b,
          )
          refl)

  bucket_other :
      length (set call.key (recent c call.key call.at b ++ call.at ∷ []) b) ≤ c.max_keys
      → text_eq call.key key ≡ false
      → bucket key (allow c call.key call.at b).1 ≡ bucket key b
  bucket_other fits other = rw (get-allow c call.key call.at b key fits, other) refl

run_agrees :
    (c : Limits) (key : Text) (calls : List Call) (b : Buckets) (t : ℕ) (log : List ℕ)
    → Agree c t (bucket key b) log
    → IsOrdered t calls
    → Fits c b calls
    → answers_to key (run c b calls) ≡ log_run c log (calls_of key calls)
unfolding run
run_agrees c key [] b t log agree o f = refl
run_agrees c key (call ∷ calls) b t log agree (le, o) (f, fs) =
    let later = run_agrees c key calls (allow c call.key call.at b).1 call.at in
    elim (Bool-cases (text_eq call.key key)) [
      | inl its_own ↦
          let same = (text_eq_iff call.key key).0 its_own in
          let answer = answer_same c b call key same ∙ ap (λ n. ltb n c.limit) (agree call.at le) in
          rw (its_own, answer)
            (ap (λ rest. (call, ltb (in_view c call.at log) c.limit) ∷ rest)
              (later _
                (subst (λ hits. Agree c call.at hits (next_log c call.at log))
                  (sym (bucket_same c b call key f same))
                  (Agree-next c t call.at (bucket key b) log le agree))
                o fs))
      | inr other ↦ rw other (
          later log
            (λ T above.
              ap (in_view c T) (bucket_other c b call key f other) ∙ agree T (omega arith))
            o fs)
    ]

-- Over any calls at times that do not decrease, from an empty table that they do not overfill: the
-- answers to each key are those of a limiter that this key has for itself, which admits a call when
-- fewer than the limit of those it admitted before are in its window.
pub run-refines :
    (c : Limits) (key : Text) (calls : List Call)
    → IsOrdered 0 calls
    → Fits c [] calls
    → answers_to key (run c [] calls) ≡ log_run c [] (calls_of key calls)
unfolding get
run-refines c key calls o f = run_agrees c key calls [] 0 [] (λ T h. refl) o f
