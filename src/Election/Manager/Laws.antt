-- ===== src/Election/Manager/Laws.antt =====
-- The overrides and the requests of election/manager.go.
use falak.Prelude.{
  ◌≡◌, String, lookup-insert, lookup-delete, string_eq, pair_eq, ◌==◌, if◌then◌else◌, arith,
}
use falak.Prelude.Int.{ℤ, pos, ltb_ℤ}
use falak.Capsule.Store.{Capsule}
use falak.Election.Manager.{Manager, set_cluster_timeout, timeout_for}

module _ {C : Type 0} (m : Manager C) where
  -- A timeout that is set for a cluster is the one in force there when it is positive, and one that
  -- is not positive restores the manager's own; other clusters keep theirs.
  pub timeout_for-set_cluster_timeout :
      (path other : String) (d : ℤ)
      → timeout_for (set_cluster_timeout m path d) other ≡ (
          if path == other
          then if ltb_ℤ (pos 0) d then d else m.election_timeout
          else timeout_for m other)
  unfolding timeout_for set_cluster_timeout
  timeout_for-set_cluster_timeout path other d = ground (
    arith,
    lookup-insert path other d m.per_cluster_timeout,
    lookup-delete path other m.per_cluster_timeout,
  )
