-- ===== src/Capsule/Labels/Tests.antt =====
-- The theorems about labels at concrete label sets.
use falak.Prelude.{◌≡◌, refl, true, false, [], ◌∷◌, some, lookup, all, UniqueKeys, string_eq}
use falak.Capsule.Labels.{Labels, labels_match, labels_equal}

abbrev edge_node : Labels
edge_node = ("zone", "a") ∷ ("gpu", "yes") ∷ []

abbrev zone_b : Labels
zone_b = ("zone", "b") ∷ []

abbrev turned : Labels
turned = ("gpu", "yes") ∷ ("zone", "a") ∷ []

edge_node_unique : UniqueKeys edge_node
unfolding lookup
edge_node_unique = (refl, (refl, tt))

turned_unique : UniqueKeys turned
unfolding lookup
turned_unique = (refl, (refl, tt))

zone_b_unique : UniqueKeys zone_b
unfolding lookup
zone_b_unique = (refl, tt)

turned-match : labels_match edge_node turned ≡ true
unfolding labels_match all lookup
turned-match = refl

turned-zone : lookup "zone" turned ≡ some "a"
unfolding lookup
turned-zone = refl

zone_b-mismatch : labels_match edge_node zone_b ≡ false
unfolding labels_match all lookup
zone_b-mismatch = refl

turned-equal : labels_equal edge_node turned ≡ true
unfolding labels_equal all lookup
turned-equal = refl
