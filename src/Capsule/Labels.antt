-- ===== src/Capsule/Labels.antt =====
-- capsule/labels.go. Labels are an association list from keys to values; its order stands for the
-- order in which Go ranges over the map.
pub mod Matching
mod Tests
use falak.Prelude.{
  Bool, true, false, not, List, [], ◌∷◌, Option, none, some, String, Map, lookup, insert, has, all,
  any, length, nat_beq, ◌==◌, string_eq, if◌then◌else◌, ◌&&◌, ◌||◌,
}

abbrev pub Labels : Type 0
Labels = Map String String

abbrev pub same_keyword : String
same_keyword = "same"

-- `v, ok := m[key]; ok && v == value`.
abbrev pub equals : Option String → String → Bool
equals none value = false
equals (some v) value = v == value

abbrev pub has_label : Labels → String × String → Bool
has_label candidate (key, value) = equals (lookup key candidate) value

pub labels_match : Labels → Labels → Bool
labels_match candidate required = all (has_label candidate) required

-- Both sides have the key, with one value.
abbrev pub both_equal : Option String → Option String → Bool
both_equal (some v) (some w) = v == w
both_equal _ _ = false

abbrev pub shares : Labels → Labels → String × String → Bool
shares source target (key, value) =
    if value == same_keyword then both_equal (lookup key source) (lookup key target) else true

pub labels_share_match : Labels → Labels → Labels → Bool
labels_share_match source target rule = all (shares source target) rule

abbrev pub one_of : List String → Option String → Bool
one_of allowed none = false
one_of allowed (some v) = any (λ w. v == w) allowed

pub labels_match_any_value : Labels → String → List String → Bool
labels_match_any_value candidate key allowed = one_of allowed (lookup key candidate)

pub labels_contains : Labels → String → Bool
labels_contains labels key = has (lookup key labels)

-- `result[k] = v` for every entry of the second map.
pub put_all : Labels → Labels → Labels
put_all result [] = result
put_all result ((k, v) ∷ m) = put_all (insert k v result) m

pub labels_merge : Labels → Labels → Labels
unfolding put_all
labels_merge base overrides = put_all (put_all [] base) overrides

pub labels_equal : Labels → Labels → Bool
labels_equal a b = if nat_beq (length a) (length b) then all (has_label b) a else false
