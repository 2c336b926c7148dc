-- ===== src/AutoRebuild/Sweep.antt =====
-- Which sites the sweep rebuilds, against the list of those that are due.
use mathlib.Core.List.{append_assoc, append-nil}
use site_foundry.AutoRebuild.{
  LiveSite, Panel, World, is_stale, is_due, rebuild_one, visit, visit_all, sweep,
}
use site_foundry.Effects.Cases.{Act-cases}
use site_foundry.Prelude.{
  ℕ, suc, ◌+◌, ◌≤◌, ◌≡◌, refl, sym, ap, subst, ◌∙◌, ◌≢◌, inl, inr, Bool, true, false, ◌&&◌, not,
  Option, none, some, List, [], ◌∷◌, ◌++◌, arith, leb, if◌then◌else◌, Bool-cases, length,
}
use site_foundry.Text.{Text}

-- What the sweep relies on: a rebuild of one site, whether it succeeds or throws, leaves whether any
-- other site is running and when it was last built.
abbrev pub Apart : Panel → Type 0
Apart panel =
    (tenant id other : Text) (s : panel.State)
    → other ≢ id
    → (panel.is_running other (panel.rebuild_files tenant id s).1 ≡ panel.is_running other s)
      × (panel.last_success other (panel.rebuild_files tenant id s).1 ≡ panel.last_success other s)

-- No later site has the id.
abbrev pub IsFresh : Text → List LiveSite → Type 0
IsFresh id [] = Unit
IsFresh id (s ∷ ss) = (s.id ≢ id) × IsFresh id ss

-- The ids are different.
abbrev pub IsDistinct : List LiveSite → Type 0
IsDistinct [] = Unit
IsDistinct (s ∷ ss) = IsFresh s.id ss × IsDistinct ss

module _ (panel : Panel) where
  open panel use {State, newest_search, live_sites, is_running, last_success, rebuild_files}

  -- No build of a site succeeded at the time of the newest search or later.
  abbrev pub is_outdated : ℕ → Option ℕ → Bool
  is_outdated newest none = true
  is_outdated newest (some built) = not (leb newest built)

  -- The site is not running, and it is outdated.
  abbrev pub needs_rebuild : ℕ → Text → State → Bool
  needs_rebuild newest id s = elim (is_running id s) [
    | true ↦ false
    | false ↦ is_outdated newest (last_success id s)
  ]

  -- The ids of the sites that need a rebuild, in order
  abbrev pub due_ids : ℕ → List LiveSite → State → List Text
  due_ids newest [] s = []
  due_ids newest (l ∷ ls) s =
      let rest = due_ids newest ls s in if needs_rebuild newest l.id s then l.id ∷ rest else rest

  is_stale_lem : (newest : ℕ) (built : Option ℕ) → is_stale newest built ≡ is_outdated newest built
  is_stale_lem newest none = refl
  is_stale_lem newest (some built) = ground arith

  -- The code's test is that description.
  is_due_lem :
      (newest : ℕ) (l : LiveSite) (s : State)
      → is_due panel newest l s ≡ needs_rebuild newest l.id s
  unfolding is_due
  is_due_lem newest l s =
      ap (λ b. not (is_running l.id s) && b) (is_stale_lem newest (last_success l.id s))
      ∙ split (is_running l.id s)
    where
      split :
          (running : Bool)
          → (not running && is_outdated newest (last_success l.id s))
            ≡ (elim running [ true ↦ false | false ↦ is_outdated newest (last_success l.id s) ])
      split true = refl
      split false = refl

  -- Two states agree on the sites of a list.
  abbrev Agree : List LiveSite → State → State → Type 0
  Agree [] s t = Unit
  Agree (l ∷ ls) s t =
      ((is_running l.id t ≡ is_running l.id s) × (last_success l.id t ≡ last_success l.id s))
      × Agree ls s t

  Agree-refl : (ls : List LiveSite) (s : State) → Agree ls s s
  Agree-refl [] s = tt
  Agree-refl (l ∷ ls) s = ((refl, refl), Agree-refl ls s)

  Agree-rebuild :
      (apart : Apart panel) (tenant id : Text) (ls : List LiveSite) (s : State)
      → IsFresh id ls
      → Agree ls s (rebuild_files tenant id s).1
  Agree-rebuild apart tenant id [] s h = tt
  Agree-rebuild apart tenant id (l ∷ ls) s (h, hs) =
      (apart tenant id l.id s h, Agree-rebuild apart tenant id ls s hs)

  needs_rebuild_same :
      (newest : ℕ) (id : Text) (s t : State)
      → (is_running id t ≡ is_running id s) × (last_success id t ≡ last_success id s)
      → needs_rebuild newest id t ≡ needs_rebuild newest id s
  needs_rebuild_same newest id s t (r, b) =
      ap (λ (p : Bool × Option ℕ). elim p.0 [ true ↦ false | false ↦ is_outdated newest p.1 ])
        (λ i. (r i, b i))

  due_ids-Agree :
      (newest : ℕ) (ls : List LiveSite) (s t : State)
      → Agree ls s t
      → due_ids newest ls t ≡ due_ids newest ls s
  due_ids-Agree newest [] s t h = refl
  due_ids-Agree newest (l ∷ ls) s t (h, hs) =
      let later = due_ids-Agree newest ls s t hs in
      ap (λ b. if b then l.id ∷ due_ids newest ls t else due_ids newest ls t)
        (needs_rebuild_same newest l.id s t h)
      ∙ ap (λ rest. if needs_rebuild newest l.id s then l.id ∷ rest else rest) later

  state_rebuilt :
      (l : LiveSite) (rebuilt : ℕ) (w : World State)
      → ((rebuild_one panel l rebuilt w).1.state ≡ (rebuild_files l.tenant_id l.id w.state).1)
        × ((rebuild_one panel l rebuilt w).1.attempts ≡ w.attempts ++ l.id ∷ [])
        × ((rebuild_one panel l rebuilt w).0 ≤ suc rebuilt)
  unfolding rebuild_one
  state_rebuilt l rebuilt w = elim (Act-cases (rebuild_files l.tenant_id l.id w.state)) [
    | inl (u, s, e) ↦ rw e (refl, refl, omega arith)
    | inr (x, s, e) ↦ rw e (refl, refl, omega arith)
  ]

  visit_due :
      (newest : ℕ) (l : LiveSite) (rebuilt : ℕ) (w : World State)
      → is_due panel newest l w.state ≡ true
      → visit panel newest l rebuilt w ≡ rebuild_one panel l rebuilt w
  unfolding visit
  visit_due newest l rebuilt w due = rw due refl

  visit_idle :
      (newest : ℕ) (l : LiveSite) (rebuilt : ℕ) (w : World State)
      → is_due panel newest l w.state ≡ false
      → visit panel newest l rebuilt w ≡ (rebuilt, w)
  unfolding visit
  visit_idle newest l rebuilt w idle = rw idle refl

  due_ids_due :
      (newest : ℕ) (l : LiveSite) (ls : List LiveSite) (s : State)
      → is_due panel newest l s ≡ true
      → due_ids newest (l ∷ ls) s ≡ l.id ∷ due_ids newest ls s
  due_ids_due newest l ls s due = rw (sym (is_due_lem newest l s) ∙ due) refl

  due_ids_idle :
      (newest : ℕ) (l : LiveSite) (ls : List LiveSite) (s : State)
      → is_due panel newest l s ≡ false
      → due_ids newest (l ∷ ls) s ≡ due_ids newest ls s
  due_ids_idle newest l ls s idle = rw (sym (is_due_lem newest l s) ∙ idle) refl

  -- What the loop comes to, from a count and a world on
  abbrev Visits : ℕ → List LiveSite → ℕ → World State → ℕ × World State → Type 0
  Visits newest ls rebuilt w r =
      (r.1.attempts ≡ w.attempts ++ due_ids newest ls w.state) × (r.0 ≤ rebuilt + length ls)

  module _ (apart : Apart panel) where
    visit_all_lem :
        (newest : ℕ) (ls : List LiveSite) (rebuilt : ℕ) (w : World State)
        → IsDistinct ls
        → Visits newest ls rebuilt w (visit_all panel newest ls rebuilt w)
    unfolding visit_all
    visit_all_lem newest [] rebuilt w h = (sym (append-nil w.attempts), omega arith)
    visit_all_lem newest (l ∷ ls) rebuilt w (fresh, h) =
        elim (Bool-cases (is_due panel newest l w.state)) [
          | inl due ↦
              let r = rebuild_one panel l rebuilt w in
              let (state, attempts, few) = state_rebuilt l rebuilt w in
              let (ih, bound) = visit_all_lem newest ls r.0 r.1 h in
              let same : due_ids newest ls r.1.state ≡ due_ids newest ls w.state =
                ap (due_ids newest ls) state
                ∙ due_ids-Agree newest ls w.state _
                    (Agree-rebuild apart l.tenant_id l.id ls w.state fresh) in
              subst (Visits newest (l ∷ ls) rebuilt w)
                (ap (λ p. visit_all panel newest ls p.0 p.1)
                  (sym (visit_due newest l rebuilt w due)))
                (
                  ih
                      ∙ ap (λ a. a ++ due_ids newest ls r.1.state) attempts
                      ∙ ap (λ d. (w.attempts ++ l.id ∷ []) ++ d) same
                      ∙ append_assoc w.attempts (l.id ∷ []) (due_ids newest ls w.state)
                      ∙ ap (λ d. w.attempts ++ d) (sym (due_ids_due newest l ls w.state due)),
                  omega arith,
                )
          | inr idle ↦
              let (ih, bound) = visit_all_lem newest ls rebuilt w h in
              subst (Visits newest (l ∷ ls) rebuilt w)
                (ap (λ p. visit_all panel newest ls p.0 p.1)
                  (sym (visit_idle newest l rebuilt w idle)))
                (
                  ih ∙ ap (λ d. w.attempts ++ d) (sym (due_ids_idle newest l ls w.state idle)),
                  omega arith,
                )
        ]

    -- If a rebuild of a site leaves the other sites apart, a search is stored, and the live sites
    -- have different ids: the sweep returns; it starts a rebuild of exactly the sites that are live,
    -- not running and without a successful build since the newest search, each once and in their
    -- order, whether or not the rebuilds before succeed; and it reports no more rebuilt than
    -- considered.
    pub sweep-attempts :
        (newest : ℕ) (w : World State)
        → newest_search w.state ≡ some newest
        → IsDistinct (live_sites w.state)
        → ((sweep panel w).1.attempts ≡ w.attempts ++ due_ids newest (live_sites w.state) w.state)
          × ((sweep panel w).0.considered ≡ length (live_sites w.state))
          × ((sweep panel w).0.rebuilt ≤ (sweep panel w).0.considered)
    unfolding sweep
    sweep-attempts newest w h distinct =
        let (attempts, few) = visit_all_lem newest (live_sites w.state) 0 w distinct in
        rw (sweep, h) (attempts, refl, omega arith)
