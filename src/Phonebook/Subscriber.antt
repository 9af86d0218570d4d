-- ===== src/Phonebook/Subscriber.antt =====
-- node/phonebook/subscriber.go: the rows that membership events write. Node IDs and paths are texts
-- and a path's bytes are those of `Shared.Paths`; `region_of` and `datacenter_of` read the parts
-- of a parsed path as texts. The three loops take the events of their channels one at a time.
use falak.Prelude.{
  ℕ, ◌≡◌, refl, ap, ◌∙◌, false, ◌&&◌, List, [], ◌∷◌, ◌++◌, Option, none, some, String, has,
  string_eq, ◌==◌, if◌then◌else◌, arith, inl, inr, Option-cases,
}
use falak.Prelude.Int.{ℤ, pos}
use falak.Shared.Paths.{Bytes, bytes, extract_region, extract_datacenter}
use falak.Phonebook.Rows.{
  get-modify, get-modify_other, get-append, get-append_other, exists-get, get-key, change,
}
use falak.Phonebook.{
  Entry, Phonebook, active, Capabilities, zero_time, is_entry, get, same_status, exists, new_row,
  add, update, overwrite,
}

pub record Member : Type 0 where
  pub node_id : String
  pub addresses : List String
  pub public_key : List ℕ
  pub capabilities : Option Capabilities

pub data Event : Type 0 where
  new_member_announced new_member_received : String → Member → Event
  cluster_members_received : String → List Member → Event

-- `region_of` and `datacenter_of` turn the parts of a path, which are empty for an invalid path,
-- into texts.
module _ (text_of : Bytes → String) where
  pub new_entry : ℕ → String → Member → Entry
  new_entry now cluster_path m = record {
    node_id = m.node_id;
    cluster_path = cluster_path;
    public_key = m.public_key;
    addresses = m.addresses;
    region = text_of (extract_region (bytes cluster_path));
    datacenter = text_of (extract_datacenter (bytes cluster_path));
    capabilities = m.capabilities;
    first_seen = pos now;
    last_seen = pos now;
    last_connected = zero_time;
    updated_at = zero_time;
    connection_attempts = 0;
    connection_success = 0;
    success_rate = 0;
    consecutive_fails = 0;
    reliability_score = 0;
    last_probe_time = zero_time;
    last_probe_success = false;
    status = active;
    is_connected = false;
  }

  pub add_or_update_entry : Phonebook → ℕ → String → Member → Phonebook
  unfolding new_entry
  add_or_update_entry p now cluster_path m =
      let entry = new_entry now cluster_path m in
      if exists p m.node_id cluster_path then update p now entry else (add p now entry).0

  pub add_or_update_all : Phonebook → ℕ → String → List Member → Phonebook
  unfolding add_or_update_entry
  add_or_update_all p now cluster_path [] = p
  add_or_update_all p now cluster_path (m ∷ ms) =
      add_or_update_all (add_or_update_entry p now cluster_path m) now cluster_path ms

  pub handle : Phonebook → ℕ → Event → Phonebook
  unfolding add_or_update_all
  handle p now (new_member_announced cluster m) = add_or_update_entry p now cluster m
  handle p now (new_member_received cluster m) = add_or_update_entry p now cluster m
  handle p now (cluster_members_received cluster ms) = add_or_update_all p now cluster ms

  abbrev first_seen_of : ℕ → Option Entry → ℤ
  first_seen_of now none = pos now
  first_seen_of now (some e) = e.first_seen

  -- What the event makes of the row.
  abbrev pub announced_row : Phonebook → ℕ → String → Member → Entry
  announced_row p now cluster_path m = record (new_entry now cluster_path m) {
    first_seen = first_seen_of now (get p m.node_id cluster_path);
    updated_at = pos now;
  }

  module _ (p : Phonebook) (now : ℕ) (cluster_path : String) (m : Member) where
    known :
        (old : Entry)
        → get p m.node_id cluster_path ≡ some old
        → add_or_update_entry p now cluster_path m ≡ update p now (new_entry now cluster_path m)
    unfolding add_or_update_entry
    known old g = rw (exists-get p m.node_id cluster_path ∙ ap has g) refl

    unknown :
        get p m.node_id cluster_path ≡ none
        → add_or_update_entry p now cluster_path m
          ≡ record { rows = p.rows ++ new_row now (new_entry now cluster_path m) ∷ [] }
    unfolding add_or_update_entry add
    unknown g =
        let e : exists p m.node_id cluster_path ≡ false =
          exists-get p m.node_id cluster_path ∙ ap has g in
        ground arith

    row_of-get :
        get (add_or_update_entry p now cluster_path m) m.node_id cluster_path
        ≡ some (announced_row p now cluster_path m)
    unfolding update overwrite new_row new_entry same_status
    row_of-get = elim (Option-cases (get p m.node_id cluster_path)) [
      | inl g ↦
          rw (unknown g, g)
            (get-append p (new_row now (new_entry now cluster_path m)) g ∙ ground arith)
      | inr (old, g) ↦
          rw (known old g, g)
            (get-modify p m.node_id cluster_path (overwrite now (new_entry now cluster_path m))
                (λ e. (refl, refl))
              ∙ ap (change (overwrite now (new_entry now cluster_path m))) g
              ∙ (let (i, j) = get-key p m.node_id cluster_path old g in ground arith))
    ]

    others-get :
        (node in_cluster : String)
        → (m.node_id == node && cluster_path == in_cluster) ≡ false
        → get (add_or_update_entry p now cluster_path m) node in_cluster ≡ get p node in_cluster
    unfolding update overwrite new_row new_entry is_entry
    others-get node in_cluster h = elim (Option-cases (get p m.node_id cluster_path)) [
      | inl g ↦
          rw (unknown g)
            (get-append_other p (new_row now (new_entry now cluster_path m)) node in_cluster h)
      | inr (old, g) ↦
          rw (known old g)
            (get-modify_other p m.node_id cluster_path node in_cluster _ (λ e. (refl, refl)) h)
    ]

  -- After an event about a member its row holds what the event says and, of a row that was there,
  -- only the first sight: connection history, score and probes start anew and the status is active,
  -- whatever it was. No other row changes.
  pub add_or_update_entry_lem :
      (p : Phonebook) (now : ℕ) (cluster_path : String) (m : Member) (node in_cluster : String)
      → (m.node_id == node && cluster_path == in_cluster) ≡ false
      → (get (add_or_update_entry p now cluster_path m) m.node_id cluster_path
          ≡ some (announced_row p now cluster_path m))
        × (get (add_or_update_entry p now cluster_path m) node in_cluster ≡ get p node in_cluster)
  add_or_update_entry_lem p now cluster_path m node in_cluster h =
      (row_of-get p now cluster_path m, others-get p now cluster_path m node in_cluster h)
