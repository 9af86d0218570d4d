-- ===== src/Phonebook/History.antt =====
-- The primary key and the connection history of node/phonebook/sqlite.go over any run of calls.
use falak.Prelude.{
  ℕ, ◌+◌, ◌≤◌, ◌≡◌, refl, ◌∙◌, Bool, true, false, List, [], ◌∷◌, ◌++◌, String, string_eq, keep, any,
  All, if◌then◌else◌, arith, Bool-cases, inl, inr,
}
use text.Mathlib.TextEquality.{eq_iff}
use falak.Phonebook.{
  Entry, Phonebook, NodeStatus, is_entry, exists, modify_rows, modify, new_row, add, update,
  overwrite, remove, remove_all_for_node, attempted, record_connection_attempt, record_disconnect,
  set_reliability_score, set_status, record_probe, prune, is_stale,
}
use falak.Phonebook.Rows.{KeepsKey, is_entry-change}

-- No successes and failures in a row are counted that were not attempts.
abbrev pub Counted : Entry → Type 0
Counted e = e.connection_success + e.consecutive_fails ≤ e.connection_attempts

abbrev pub Fresh : Entry → List Entry → Type 0
Fresh e [] = Unit
Fresh e (d ∷ ds) = (is_entry e.node_id e.cluster_path d ≡ false) × Fresh e ds

-- One row per key, each with a sound history.
abbrev pub ValidRows : List Entry → Type 0
ValidRows [] = Unit
ValidRows (e ∷ es) = Counted e × Fresh e es × ValidRows es

Fresh-keep : (p : Entry → Bool) (e : Entry) (es : List Entry) → Fresh e es → Fresh e (keep p es)
unfolding keep
Fresh-keep p e [] f = tt
Fresh-keep p e (d ∷ ds) f = elim (Bool-cases (p d)) [
  | inl h ↦ rw h (f.0, Fresh-keep p e ds f.1)
  | inr h ↦ rw h (Fresh-keep p e ds f.1)
]

ValidRows-keep : (p : Entry → Bool) (es : List Entry) → ValidRows es → ValidRows (keep p es)
unfolding keep
ValidRows-keep p [] v = tt
ValidRows-keep p (e ∷ es) v = elim (Bool-cases (p e)) [
  | inl h ↦ rw h (v.0, Fresh-keep p e es v.1, ValidRows-keep p es v.2)
  | inr h ↦ rw h (ValidRows-keep p es v.2)
]

-- A change keeps the key, and the history sound.
abbrev pub KeepsCounts : (Entry → Entry) → Type 0
KeepsCounts f = (e : Entry) → Counted e → Counted (f e)

Fresh-modify_rows :
    (node cluster : String) (f : Entry → Entry) (e : Entry) (es : List Entry)
    → KeepsKey f
    → Fresh e es
    → Fresh e (modify_rows node cluster f es)
unfolding modify_rows
Fresh-modify_rows node cluster f e [] k v = tt
Fresh-modify_rows node cluster f e (d ∷ ds) k v = elim (Bool-cases (is_entry node cluster d)) [
  | inl h ↦ rw h (
    is_entry-change e.node_id e.cluster_path f d k ∙ v.0,
    Fresh-modify_rows node cluster f e ds k v.1,
  )
  | inr h ↦ rw h (v.0, Fresh-modify_rows node cluster f e ds k v.1)
]

Fresh-change :
    (f : Entry → Entry) (e : Entry) (es : List Entry) → KeepsKey f → Fresh e es → Fresh (f e) es
Fresh-change f e [] k v = tt
Fresh-change f e (d ∷ ds) k v = (rw ((k e).0, (k e).1) v.0, Fresh-change f e ds k v.1)

ValidRows-modify_rows :
    (node cluster : String) (f : Entry → Entry) (es : List Entry)
    → KeepsKey f
    → KeepsCounts f
    → ValidRows es
    → ValidRows (modify_rows node cluster f es)
unfolding modify_rows
ValidRows-modify_rows node cluster f [] k c v = tt
ValidRows-modify_rows node cluster f (e ∷ es) k c v =
    let rest = ValidRows-modify_rows node cluster f es k c v.2 in
    let fresh = Fresh-modify_rows node cluster f e es k v.1 in
    elim (Bool-cases (is_entry node cluster e)) [
      | inl h ↦ rw h (c e v.0, Fresh-change f e _ k fresh, rest)
      | inr h ↦ rw h (v.0, fresh, rest)
    ]

Fresh-append :
    (e d : Entry) (es : List Entry)
    → is_entry e.node_id e.cluster_path d ≡ false
    → Fresh e es
    → Fresh e (es ++ d ∷ [])
Fresh-append e d [] h f = (h, tt)
Fresh-append e d (x ∷ xs) h f = (f.0, Fresh-append e d xs h f.1)

is_entry-swap :
    (d e : Entry)
    → is_entry e.node_id e.cluster_path d ≡ false
    → is_entry d.node_id d.cluster_path e ≡ false
unfolding is_entry
is_entry-swap d e h = ground (
  arith,
  eq_iff d.node_id e.node_id,
  eq_iff e.node_id d.node_id,
  eq_iff d.cluster_path e.cluster_path,
  eq_iff e.cluster_path d.cluster_path,
)

-- A row whose key is not in the table.
ValidRows-append :
    (e : Entry) (es : List Entry)
    → any (is_entry e.node_id e.cluster_path) es ≡ false
    → Counted e
    → ValidRows es
    → ValidRows (es ++ e ∷ [])
unfolding any
ValidRows-append e [] h c v = (c, tt, tt)
ValidRows-append e (d ∷ ds) h c v = elim (Bool-cases (is_entry e.node_id e.cluster_path d)) [
  | inl t ↦ let no : true ≡ false = rw t at h in absurd (cc)
  | inr n ↦
      let rest : any (is_entry e.node_id e.cluster_path) ds ≡ false = rw n at h in
      (v.0, Fresh-append d e ds (is_entry-swap d e n) v.1, ValidRows-append e ds rest c v.2)
]

rows-add :
    (p : Phonebook) (now : ℕ) (e : Entry)
    → (add p now e).0 ≡ (
        if exists p e.node_id e.cluster_path
        then p
        else record { rows = p.rows ++ new_row now e ∷ [] })
unfolding add
rows-add p now e = ground arith

add-ValidRows :
    (p : Phonebook) (now : ℕ) (e : Entry)
    → Counted e
    → ValidRows p.rows
    → ValidRows (add p now e).0.rows
unfolding add exists
add-ValidRows p now e c v = rw (rows-add p now e) (on_test (exists p e.node_id e.cluster_path) refl)
  where
    on_test :
        (there : Bool)
        → exists p e.node_id e.cluster_path ≡ there
        → ValidRows (if there then p else record { rows = p.rows ++ new_row now e ∷ [] }).rows
    on_test true h = v
    on_test false h = ValidRows-append (new_row now e) p.rows h c v

-- The statements that change the table.
pub data Statement : Type 0 where
  inserted updated : Entry → Statement
  removed : String → String → Statement
  all_removed : String → Statement
  attempt : String → String → Bool → Statement
  disconnected : String → String → Statement
  scored : String → String → ℕ → Statement
  set_to : String → String → NodeStatus → Statement
  probed : String → String → Bool → Statement
  pruned : ℕ → ℕ → Statement

-- The entry that a statement brings along has a sound history.
abbrev pub Brings : Statement → Type 0
Brings (inserted e) = Counted e
Brings (updated e) = Counted e
Brings _ = Unit

module _ (ratio : ℕ → ℕ → ℕ) where
  pub step : Phonebook → ℕ → Statement → Phonebook
  step p now (inserted e) = (add p now e).0
  step p now (updated e) = update p now e
  step p now (removed node cluster) = remove p node cluster
  step p now (all_removed node) = remove_all_for_node p node
  step p now (attempt node cluster success) =
      record_connection_attempt ratio p now node cluster success
  step p now (disconnected node cluster) = record_disconnect p now node cluster
  step p now (scored node cluster score) = set_reliability_score p now node cluster score
  step p now (set_to node cluster status) = set_status p now node cluster status
  step p now (probed node cluster success) = record_probe p now node cluster success
  step p now (pruned max_age max_fails) = (prune p now max_age max_fails).0

  pub run : Phonebook → List (ℕ × Statement) → Phonebook
  unfolding step
  run p [] = p
  run p ((now, s) ∷ ss) = run (step p now s) ss

  step-ValidRows :
      (p : Phonebook) (now : ℕ) (s : Statement)
      → Brings s
      → ValidRows p.rows
      → ValidRows (step p now s).rows
  unfolding step update overwrite modify remove remove_all_for_node record_connection_attempt
      attempted record_disconnect set_reliability_score set_status record_probe prune is_stale
  step-ValidRows p now (inserted e) b v = add-ValidRows p now e b v
  step-ValidRows p now (updated e) b v =
      ValidRows-modify_rows e.node_id e.cluster_path _ p.rows (λ d. (refl, refl)) (λ d c. b) v
  step-ValidRows p now (removed node cluster) b v = ValidRows-keep _ p.rows v
  step-ValidRows p now (all_removed node) b v = ValidRows-keep _ p.rows v
  step-ValidRows p now (attempt node cluster true) b v =
      ValidRows-modify_rows node cluster _ p.rows (λ d. (refl, refl)) (λ d c. omega arith) v
  step-ValidRows p now (attempt node cluster false) b v =
      ValidRows-modify_rows node cluster _ p.rows (λ d. (refl, refl)) (λ d c. omega arith) v
  step-ValidRows p now (disconnected node cluster) b v =
      ValidRows-modify_rows node cluster _ p.rows (λ d. (refl, refl)) (λ d c. c) v
  step-ValidRows p now (scored node cluster score) b v =
      ValidRows-modify_rows node cluster _ p.rows (λ d. (refl, refl)) (λ d c. c) v
  step-ValidRows p now (set_to node cluster status) b v =
      ValidRows-modify_rows node cluster _ p.rows (λ d. (refl, refl)) (λ d c. c) v
  step-ValidRows p now (probed node cluster success) b v =
      ValidRows-modify_rows node cluster _ p.rows (λ d. (refl, refl)) (λ d c. c) v
  step-ValidRows p now (pruned max_age max_fails) b v = ValidRows-keep _ p.rows v

  from-ValidRows :
      (p : Phonebook) (ss : List (ℕ × Statement))
      → ValidRows p.rows
      → All (λ s. Brings s.1) ss
      → ValidRows (run p ss).rows
  unfolding run
  from-ValidRows p [] v b = v
  from-ValidRows p ((now, s) ∷ ss) v b =
      from-ValidRows (step p now s) ss (step-ValidRows p now s b.0 v) b.1

  -- Whatever statements run on an empty table, with entries that bring a sound history along, there
  -- is one row per node and cluster, and no row counts more successes and failures in a row
  -- together than attempts.
  pub run-ValidRows :
      (ss : List (ℕ × Statement))
      → All (λ s. Brings s.1) ss
      → ValidRows (run (record { rows = [] }) ss).rows
  run-ValidRows ss b = from-ValidRows (record { rows = [] }) ss tt b
