-- ===== src/RateLimiter/Window.antt =====
-- The admitted calls of a key in a window.
use native.Mathlib.Decide.{dec_lt}
use site_foundry.RateLimiter.{Limits, Buckets, get, set, is_recent, recent, allow, Call, run}
use site_foundry.Prelude.{
  ℕ, suc, ◌+◌, ◌≤◌, ◌<◌, ◌≡◌, refl, Bool, ◌&&◌, some, List, [], ◌∷◌, ◌++◌, arith, ltb, leb,
  if◌then◌else◌, or_else, length, keep, length-append, length-keep,
}
use site_foundry.Text.{Text, text_eq, text_eq_iff, text_eq_refl}

pub get-set :
    (key j : Text) (hits : List ℕ) (b : Buckets)
    → get j (set key hits b) ≡ (if text_eq key j then some hits else get j b)
unfolding get set
get-set key j hits [] = refl
get-set key j hits ((k, old) ∷ rest) =
    ground (arith, get-set key j hits rest, text_eq_iff k key, text_eq_iff k j, text_eq_iff key j)

-- The times of `hits` in the window that ends at `T`.
abbrev in_window : ℕ → ℕ → List ℕ → ℕ
in_window window T [] = 0
in_window window T (t ∷ hits) =
    let rest = in_window window T hits in if leb t T && ltb T (t + window) then suc rest else rest

-- The admitted calls of `key` in the window that ends at `T`.
abbrev pub admitted : ℕ → Text → ℕ → List (Call × Bool) → ℕ
admitted window key T [] = 0
admitted window key T ((call, ok) ∷ rest) =
    let n = admitted window key T rest in
    if ok && text_eq call.key key && leb call.at T && ltb T (call.at + window) then suc n else n

-- The clock does not run backwards.
abbrev pub IsOrdered : ℕ → List Call → Type 0
IsOrdered t [] = Unit
IsOrdered t (call ∷ calls) = (t ≤ call.at) × IsOrdered call.at calls

-- The table of keys is never emptied during the calls.
abbrev pub Fits : Limits → Buckets → List Call → Type 0
Fits c b [] = Unit
Fits c b (call ∷ calls) =
    (length (set call.key (recent c call.key call.at b ++ call.at ∷ []) b) ≤ c.max_keys)
    × Fits c (allow c call.key call.at b).1 calls

in_window-le-length : (w T : ℕ) (hits : List ℕ) → in_window w T hits ≤ length hits
in_window-le-length w T [] = omega arith
in_window-le-length w T (t ∷ hits) = ground (arith, in_window-le-length w T hits)

in_window-append :
    (w T now : ℕ) (hits : List ℕ)
    → in_window w T (hits ++ now ∷ [])
      ≡ in_window w T hits + (if leb now T && ltb T (now + w) then 1 else 0)
in_window-append w T now [] = ground arith
in_window-append w T now (t ∷ hits) = ground (arith, in_window-append w T now hits)

-- What is dropped at `now` is in no later window.
in_window-keep :
    (w T now : ℕ) (hits : List ℕ)
    → now ≤ T
    → in_window w T (keep (is_recent now w) hits) ≡ in_window w T hits
in_window-keep w T now [] h = refl
in_window-keep w T now (t ∷ hits) h = ground (arith, in_window-keep w T now hits h)

-- Calls after `T` are in no window that ends at `T`.
admitted_later :
    (c : Limits) (b : Buckets) (key : Text) (T t : ℕ) (calls : List Call)
    → T < t
    → IsOrdered t calls
    → admitted c.window_ms key T (run c b calls) ≡ 0
unfolding run
admitted_later c b key T t [] h o = refl
admitted_later c b key T t (call ∷ calls) h (le, o) =
    ground
      (arith, admitted_later c (allow c call.key call.at b).1 key T call.at calls (omega arith) o)

-- The bucket of each key after a call that leaves the table within its cap.
pub get-allow :
    (c : Limits) (key : Text) (now : ℕ) (b : Buckets) (j : Text)
    → length (set key (recent c key now b ++ now ∷ []) b) ≤ c.max_keys
    → get j (allow c key now b).1 ≡ (
        if text_eq key j
        then some
            (if (allow c key now b).0 then recent c key now b ++ now ∷ [] else recent c key now b)
        else get j b)
unfolding allow
get-allow c key now b j fits =
    ground (
      arith,
      get-set key j (recent c key now b) b,
      get-set key j (recent c key now b ++ now ∷ []) b,
    )

pub allow_iff :
    (c : Limits) (key : Text) (now : ℕ) (b : Buckets)
    → (allow c key now b).0 ≡ ltb (length (recent c key now b)) c.limit
unfolding allow
allow_iff c key now b = ground arith

pub length-recent :
    (c : Limits) (key : Text) (now : ℕ) (b : Buckets)
    → length (recent c key now b) ≤ length (or_else (get key b) [])
unfolding recent
length-recent c key now b = length-keep (is_recent now c.window_ms) (or_else (get key b) [])

-- A call keeps a bucket within the limit.
length-get-allow :
    (c : Limits) (key : Text) (now : ℕ) (b : Buckets) (j : Text)
    → length (set key (recent c key now b ++ now ∷ []) b) ≤ c.max_keys
    → length (or_else (get j b) []) ≤ c.limit
    → length (or_else (get j (allow c key now b).1) []) ≤ c.limit
length-get-allow c key now b j fits size = rw (get-allow c key now b j fits) (
    ground (
      arith,
      allow_iff c key now b,
      length-append (recent c key now b) (now ∷ []),
      length-recent c key now b,
      text_eq_iff key j,
    ))

in_window-recent :
    (c : Limits) (key : Text) (now : ℕ) (b : Buckets) (T : ℕ)
    → now ≤ T
    → in_window c.window_ms T (recent c key now b)
      ≡ in_window c.window_ms T (or_else (get key b) [])
unfolding recent
in_window-recent c key now b T le = in_window-keep c.window_ms T now (or_else (get key b) []) le

module _ (c : Limits) (b : Buckets) (call : Call) (T : ℕ) where
  -- What the call adds to the window is what it adds to the bucket.
  in_window-allow :
      (fits : length (set call.key (recent c call.key call.at b ++ call.at ∷ []) b) ≤ c.max_keys)
      → call.at ≤ T
      → in_window c.window_ms T (or_else (get call.key (allow c call.key call.at b).1) [])
        ≡ in_window c.window_ms T (or_else (get call.key b) [])
          + (if (allow c call.key call.at b).0 && leb call.at T && ltb T (call.at + c.window_ms)
              then 1
              else 0)
  in_window-allow fits le =
      rw (get-allow c call.key call.at b call.key fits, text_eq_refl call.key)
        (ground (
          arith,
          in_window-recent c call.key call.at b T le,
          in_window-append c.window_ms T call.at (recent c call.key call.at b),
        ))

-- The induction: the bucket holds all that still counts.
window-le :
    (c : Limits) (b : Buckets) (key : Text) (T t : ℕ) (calls : List Call)
    → length (or_else (get key b) []) ≤ c.limit
    → IsOrdered t calls
    → Fits c b calls
    → in_window c.window_ms T (or_else (get key b) []) + admitted c.window_ms key T (run c b calls)
      ≤ c.limit
unfolding run
window-le c b key T t [] size o f =
    omega (arith, in_window-le-length c.window_ms T (or_else (get key b) []))
window-le c b key T t (call ∷ calls) size (le, o) (fits, f) =
    let b' = (allow c call.key call.at b).1 in
    let ih =
      window-le c b' key T call.at calls (length-get-allow c call.key call.at b key fits size) o
        f in
    elim (dec_lt T call.at) [
      | yes early ↦ ground (
        arith,
        admitted_later c b' key T call.at calls early o,
        in_window-le-length c.window_ms T (or_else (get key b) []),
      )
      | no late ↦ ground (
        arith,
        ih,
        get-allow c call.key call.at b key fits,
        in_window-allow c b call T fits,
        text_eq_iff call.key key,
      )
    ]

-- Whatever the calls, if the clock does not run backwards and the table of keys is not emptied,
-- then in the window that ends at any time T at most `limit` calls of a key are admitted.
pub run-admitted-le :
    (c : Limits) (key : Text) (T : ℕ) (calls : List Call)
    → IsOrdered 0 calls
    → Fits c [] calls
    → admitted c.window_ms key T (run c [] calls) ≤ c.limit
unfolding get
run-admitted-le c key T calls o f = omega (arith, window-le c [] key T 0 calls (omega arith) o f)
