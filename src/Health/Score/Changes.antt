-- ===== src/Health/Score/Changes.antt =====
-- What one write of node/health/score.go leaves of a node's band and of the other nodes.
use falak.Prelude.{
  ℕ, ◌≤◌, ◌≡◌, refl, subst, ◌∙◌, true, false, List, some, String, string_eq, ◌==◌, lookup-delete,
  arith, Option-cases, inl, inr,
}
use text.Mathlib.TextEquality.{eq_iff}
use falak.Phonebook.{Entry, active, same_status}
use falak.Health.Score.{
  ScoreTracker, Band, HealthEvent, write_status, write_score, stop_timer, publish, recovered,
  effective, cluster_size, check_thresholds, record_success,
}
use falak.Health.Score.Writes.{
  row, timer, with_score, row-write_status, row-write_score, effective-write_status,
  effective-write_score,
}
use falak.Health.Score.Status.{
  InBand, Ordered, check_thresholds-InBand, check_thresholds-effective, check_thresholds-others,
}

module _ (plus times scaled : ℕ → ℕ → ℕ) (default_bands : List Band) where
  pub record_success-effective :
      (st : ScoreTracker) (now : ℕ) (node reason : String)
      → effective plus times scaled default_bands (record_success st now true true node reason)
        ≡ effective plus times scaled default_bands st
  unfolding record_success recovered publish stop_timer effective cluster_size
  record_success-effective st now node reason = ground (
    arith,
    effective-write_score plus times scaled default_bands st now node 0,
    effective-write_status plus times scaled default_bands (write_score st now true node 0) now node
        active,
  )

  pub record_success-others :
      (st : ScoreTracker) (now : ℕ) (node other reason : String)
      → (node == other) ≡ false
      → (row (record_success st now true true node reason) other ≡ row st other)
        × (timer (record_success st now true true node reason) other ≡ timer st other)
  unfolding record_success recovered publish stop_timer
  record_success-others st now node other reason d = ground (
    arith,
    row-write_score st now node other 0,
    row-write_status (write_score st now true node 0) now node other active,
    lookup-delete node other st.quarantine_timers,
  )

  pub record_success-InBand :
      (st : ScoreTracker) (now : ℕ) (node reason : String)
      → Ordered (effective plus times scaled default_bands st)
      → InBand
          (effective plus times scaled default_bands st)
          (row (record_success st now true true node reason) node)
          (timer (record_success st now true true node reason) node)
  unfolding record_success recovered publish stop_timer same_status
  record_success-InBand st now node reason o = elim (Option-cases (row st node)) [
    | inl g ↦ ground arith
    | inr (e, g) ↦ ground (
      arith,
      eq_iff node node,
      row-write_score st now node node 0,
      row-write_status (write_score st now true node 0) now node node active,
      lookup-delete node node st.quarantine_timers,
    )
  ]

  -- A score that is written, and then looked at.
  unfoldable pub rescored : ScoreTracker → ℕ → String → ℕ → ℕ → String → ScoreTracker
  rescored st now node old new reason =
      check_thresholds plus times scaled default_bands (write_score st now true node new) now true
        node old new reason

  rescored-effective :
      (st : ScoreTracker) (now : ℕ) (node : String) (old new : ℕ) (reason : String)
      → effective plus times scaled default_bands (rescored st now node old new reason)
        ≡ effective plus times scaled default_bands st
  unfolding rescored
  rescored-effective st now node old new reason =
      check_thresholds-effective plus times scaled default_bands (write_score st now true node new)
        now node old new reason
      ∙ effective-write_score plus times scaled default_bands st now node new

  rescored-others :
      (st : ScoreTracker) (now : ℕ) (node other : String) (old new : ℕ) (reason : String)
      → (node == other) ≡ false
      → (row (rescored st now node old new reason) other ≡ row st other)
        × (timer (rescored st now node old new reason) other ≡ timer st other)
  unfolding rescored
  rescored-others st now node other old new reason d =
      let (r, t) =
        check_thresholds-others plus times scaled default_bands (write_score st now true node new)
          now node other old new reason d in
      (r ∙ row-write_score st now node other new ∙ rw d, t ∙ unfold write_score in refl)

  rescored-InBand :
      (st : ScoreTracker) (now : ℕ) (node : String) (new : ℕ) (reason : String) (e : Entry)
      → Ordered (effective plus times scaled default_bands st)
      → row st node ≡ some e
      → InBand (effective plus times scaled default_bands st) (row st node) (timer st node)
      → e.reliability_score ≤ new
      → InBand
          (effective plus times scaled default_bands st)
          (row (rescored st now node e.reliability_score new reason) node)
          (timer (rescored st now node e.reliability_score new reason) node)
  unfolding rescored
  rescored-InBand st now node new reason e o g v h =
      let eff = effective-write_score plus times scaled default_bands st now node new in
      let own : InBand (effective plus times scaled default_bands st) (some e) (timer st node) =
        rw g at v in
      subst
        (λ x.
          InBand x (row (rescored st now node e.reliability_score new reason) node)
            (timer (rescored st now node e.reliability_score new reason) node))
        eff
        (check_thresholds-InBand plus times scaled default_bands (write_score st now true node new)
          now node e.reliability_score reason (with_score now new e) (rw eff o)
          (row-write_score st now node node new ∙ ground (arith, eq_iff node node)) (rw eff own.0)
          (unfold write_score in own.1) h)

  -- An update that calls a node alive, without the event.
  unfoldable pub revived : ScoreTracker → ℕ → String → ScoreTracker
  revived st now node =
      stop_timer (write_status (write_score st now true node 0) now true node active) node

  revived-effective :
      (st : ScoreTracker) (now : ℕ) (node : String)
      → effective plus times scaled default_bands (revived st now node)
        ≡ effective plus times scaled default_bands st
  unfolding revived stop_timer effective cluster_size
  revived-effective st now node =
      effective-write_status plus times scaled default_bands (write_score st now true node 0) now
        node active
      ∙ effective-write_score plus times scaled default_bands st now node 0

  revived-others :
      (st : ScoreTracker) (now : ℕ) (node other : String)
      → (node == other) ≡ false
      → (row (revived st now node) other ≡ row st other)
        × (timer (revived st now node) other ≡ timer st other)
  unfolding revived stop_timer write_score write_status
  revived-others st now node other d = ground (
    arith,
    row-write_score st now node other 0,
    row-write_status (write_score st now true node 0) now node other active,
    lookup-delete node other st.quarantine_timers,
  )

  revived-InBand :
      (st : ScoreTracker) (now : ℕ) (node : String)
      → Ordered (effective plus times scaled default_bands st)
      → InBand
          (effective plus times scaled default_bands st)
          (row (revived st now node) node)
          (timer (revived st now node) node)
  unfolding revived stop_timer write_score write_status same_status
  revived-InBand st now node o = elim (Option-cases (row st node)) [
    | inl g ↦ ground (
      arith,
      eq_iff node node,
      row-write_score st now node node 0,
      row-write_status (write_score st now true node 0) now node node active,
    )
    | inr (e, g) ↦ ground (
      arith,
      eq_iff node node,
      row-write_score st now node node 0,
      row-write_status (write_score st now true node 0) now node node active,
      lookup-delete node node st.quarantine_timers,
    )
  ]

  -- A call leaves the thresholds and the other nodes alone, and its own node in its band.
  abbrev pub Keeps : ScoreTracker → String → ScoreTracker → Type 0
  Keeps st node st' =
      (effective plus times scaled default_bands st' ≡ effective plus times scaled default_bands st)
      × ((other : String)
          → (node == other) ≡ false
          → (row st' other ≡ row st other) × (timer st' other ≡ timer st other))
      × (Ordered (effective plus times scaled default_bands st)
          → InBand (effective plus times scaled default_bands st) (row st node) (timer st node)
          → InBand (effective plus times scaled default_bands st) (row st' node) (timer st' node))

  pub same-Keeps : (st : ScoreTracker) (node : String) → Keeps st node st
  same-Keeps st node = (refl, λ other d. (refl, refl), λ o v. v)

  pub rescored-Keeps :
      (st : ScoreTracker) (now : ℕ) (node : String) (new : ℕ) (reason : String) (e : Entry)
      → row st node ≡ some e
      → e.reliability_score ≤ new
      → Keeps st node (rescored st now node e.reliability_score new reason)
  rescored-Keeps st now node new reason e g h = (
    rescored-effective st now node e.reliability_score new reason,
    λ other d. rescored-others st now node other e.reliability_score new reason d,
    λ o v. rescored-InBand st now node new reason e o g v h,
  )

  pub revived-Keeps :
      (st : ScoreTracker) (now : ℕ) (node : String) → Keeps st node (revived st now node)
  revived-Keeps st now node = (
    revived-effective st now node,
    λ other d. revived-others st now node other d,
    λ o v. revived-InBand st now node o,
  )

  pub publish-Keeps :
      (st st' : ScoreTracker) (node : String) (event : HealthEvent)
      → Keeps st node st'
      → Keeps st node (publish st' event)
  unfolding publish effective cluster_size
  publish-Keeps st st' node event k = k
