-- ===== src/Phonebook/Rows.antt =====
-- Reading a row of node/phonebook/sqlite.go back after a statement, and the primary key.
use falak.Prelude.{
  ◌≡◌, refl, ◌∙◌, Bool, false, ◌&&◌, List, [], ◌∷◌, ◌++◌, Option, none, some, String, string_eq,
  ◌==◌, keep, any, has, length, if◌then◌else◌, arith,
}
use text.Mathlib.TextEquality.{eq_iff}
use falak.Phonebook.{
  Entry, Phonebook, is_entry, find_entry, get, exists, modify_rows, modify, get_by_cluster,
}

-- A change of a row that leaves its key.
abbrev pub KeepsKey : (Entry → Entry) → Type 0
KeepsKey f = (e : Entry) → ((f e).node_id ≡ e.node_id) × ((f e).cluster_path ≡ e.cluster_path)

abbrev pub change : (Entry → Entry) → Option Entry → Option Entry
change f none = none
change f (some e) = some (f e)

pub is_entry-change :
    (node cluster : String) (f : Entry → Entry) (e : Entry)
    → KeepsKey f
    → is_entry node cluster (f e) ≡ is_entry node cluster e
unfolding is_entry
is_entry-change node cluster f e k = rw ((k e).0, (k e).1) refl

module _ (node cluster other in_cluster : String) (f : Entry → Entry) (k : KeepsKey f) where
  -- The two keys agree.
  abbrev pub same : Bool
  same = node == other && cluster == in_cluster

  pub find_entry-modify_rows :
      (es : List Entry)
      → find_entry other in_cluster (modify_rows node cluster f es) ≡ (
          if same
          then change f (find_entry other in_cluster es)
          else find_entry other in_cluster es)
  unfolding find_entry modify_rows is_entry
  find_entry-modify_rows [] = ground arith
  find_entry-modify_rows (e ∷ es) = ground (
    arith,
    (k e).0,
    (k e).1,
    eq_iff e.node_id node,
    eq_iff e.node_id other,
    eq_iff e.cluster_path cluster,
    eq_iff e.cluster_path in_cluster,
    eq_iff node other,
    eq_iff cluster in_cluster,
    find_entry-modify_rows es,
  )

pub get-modify :
    (p : Phonebook) (node cluster : String) (f : Entry → Entry)
    → KeepsKey f
    → get (modify p node cluster f) node cluster ≡ change f (get p node cluster)
unfolding get modify
get-modify p node cluster f k =
    find_entry-modify_rows node cluster node cluster f k p.rows
    ∙ ground (arith, eq_iff node node, eq_iff cluster cluster)

pub get-modify_other :
    (p : Phonebook) (node cluster other in_cluster : String) (f : Entry → Entry)
    → KeepsKey f
    → (node == other && cluster == in_cluster) ≡ false
    → get (modify p node cluster f) other in_cluster ≡ get p other in_cluster
unfolding get modify
get-modify_other p node cluster other in_cluster f k h =
    find_entry-modify_rows node cluster other in_cluster f k p.rows ∙ rw h

-- A change of rows leaves the size of every cluster.
length-modify_rows :
    (node cluster in_cluster : String) (f : Entry → Entry) (es : List Entry)
    → KeepsKey f
    → length (keep (λ e. e.cluster_path == in_cluster) (modify_rows node cluster f es))
      ≡ length (keep (λ e. e.cluster_path == in_cluster) es)
unfolding keep modify_rows
length-modify_rows node cluster in_cluster f [] k = refl
length-modify_rows node cluster in_cluster f (e ∷ es) k =
    ground (arith, (k e).1, length-modify_rows node cluster in_cluster f es k)

pub get_by_cluster-modify :
    (p : Phonebook) (node cluster in_cluster : String) (f : Entry → Entry)
    → KeepsKey f
    → length (get_by_cluster (modify p node cluster f) in_cluster)
      ≡ length (get_by_cluster p in_cluster)
unfolding get_by_cluster modify
get_by_cluster-modify p node cluster in_cluster f k =
    length-modify_rows node cluster in_cluster f p.rows k

find_entry-any :
    (node cluster : String) (es : List Entry)
    → any (is_entry node cluster) es ≡ has (find_entry node cluster es)
unfolding any find_entry
find_entry-any node cluster [] = refl
find_entry-any node cluster (e ∷ es) = ground (arith, find_entry-any node cluster es)

pub exists-get :
    (p : Phonebook) (node cluster : String) → exists p node cluster ≡ has (get p node cluster)
unfolding exists get
exists-get p node cluster = find_entry-any node cluster p.rows

-- A row appended to a table that has none of its key.
find_entry-append :
    (node cluster : String) (e : Entry) (es : List Entry)
    → find_entry node cluster es ≡ none
    → find_entry node cluster (es ++ e ∷ []) ≡ (if is_entry node cluster e then some e else none)
unfolding find_entry
find_entry-append node cluster e [] h = refl
find_entry-append node cluster e (d ∷ ds) h = ground (arith, find_entry-append node cluster e ds)

find_entry-append_other :
    (node cluster : String) (e : Entry) (es : List Entry)
    → is_entry node cluster e ≡ false
    → find_entry node cluster (es ++ e ∷ []) ≡ find_entry node cluster es
unfolding find_entry
find_entry-append_other node cluster e [] h = rw h refl
find_entry-append_other node cluster e (d ∷ ds) h =
    ground (arith, find_entry-append_other node cluster e ds h)

pub get-append :
    (p : Phonebook) (e : Entry)
    → get p e.node_id e.cluster_path ≡ none
    → get (record { rows = p.rows ++ e ∷ [] }) e.node_id e.cluster_path ≡ some e
unfolding get is_entry
get-append p e h =
    find_entry-append e.node_id e.cluster_path e p.rows h
    ∙ ground (arith, eq_iff e.node_id e.node_id, eq_iff e.cluster_path e.cluster_path)

pub get-append_other :
    (p : Phonebook) (e : Entry) (node cluster : String)
    → is_entry node cluster e ≡ false
    → get (record { rows = p.rows ++ e ∷ [] }) node cluster ≡ get p node cluster
unfolding get
get-append_other p e node cluster h = find_entry-append_other node cluster e p.rows h

find_entry-key :
    (node cluster : String) (es : List Entry) (e : Entry)
    → find_entry node cluster es ≡ some e
    → (e.node_id ≡ node) × (e.cluster_path ≡ cluster)
unfolding find_entry is_entry
find_entry-key node cluster [] e h = absurd (cc)
find_entry-key node cluster (d ∷ ds) e h =
    ground (
      arith,
      eq_iff d.node_id node,
      eq_iff d.cluster_path cluster,
      find_entry-key node cluster ds e,
    )

pub get-key :
    (p : Phonebook) (node cluster : String) (e : Entry)
    → get p node cluster ≡ some e
    → (e.node_id ≡ node) × (e.cluster_path ≡ cluster)
unfolding get
get-key p node cluster e h = find_entry-key node cluster p.rows e h

pub get-modify_in :
    (p : Phonebook) (node other cluster : String) (f : Entry → Entry)
    → KeepsKey f
    → get (modify p node cluster f) other cluster
      ≡ (if node == other then change f (get p other cluster) else get p other cluster)
unfolding get modify
get-modify_in p node other cluster f k =
    find_entry-modify_rows node cluster other cluster f k p.rows
    ∙ ground (arith, eq_iff cluster cluster)
