-- ===== src/Phonebook/Tests.antt =====
-- The theorems about the phonebook on concrete rows.
use falak.Prelude.{
  ℕ, ◌*◌, ◌/◌, ◌≡◌, refl, true, false, List, [], ◌∷◌, none, some, string_eq, All, arith,
}
use falak.Phonebook.{Phonebook, active, quarantined, get}
use falak.Phonebook.Samples.{peer}
use falak.Phonebook.History.{
  Statement, Brings, ValidRows, inserted, attempt, pruned, run, run-ValidRows,
}
use falak.Phonebook.Subscriber.{Member, add_or_update_entry, announced_row, add_or_update_entry_lem}

-- A peer is met, connects twice, and stale peers are pruned.
abbrev statements : List (ℕ × Statement)
statements =
    (1, inserted (peer active))
    ∷ (2, attempt "n1" "local" true)
    ∷ (3, attempt "n1" "local" false)
    ∷ (4, pruned 100 3)
    ∷ []

statements-Brings : All (λ s. Brings s.1) statements
statements-Brings = (omega arith, (tt, (tt, (tt, tt))))

run-ValidRows_example :
    ValidRows (run (λ won all. won * 100 / all) (record { rows = [] }) statements).rows
run-ValidRows_example = run-ValidRows (λ won all. won * 100 / all) statements statements-Brings

-- A quarantined peer announces itself again.
abbrev book : Phonebook
book = record { rows = peer quarantined ∷ [] }

abbrev member : Member
member = record { node_id = "n1"; addresses = []; public_key = []; capabilities = none }

add_or_update_entry_lem_example :
    (get (add_or_update_entry (λ b. "") book 9 "local" member) "n1" "local"
      ≡ some (announced_row (λ b. "") book 9 "local" member))
    × (get (add_or_update_entry (λ b. "") book 9 "local" member) "n2" "local"
        ≡ get book "n2" "local")
add_or_update_entry_lem_example =
    add_or_update_entry_lem (λ b. "") book 9 "local" member "n2" "local" refl
