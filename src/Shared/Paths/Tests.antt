-- ===== src/Shared/Paths/Tests.antt =====
-- The theorems about cluster paths at concrete paths.
use falak.Prelude.{◌≡◌, refl, arith}
use falak.Shared.Paths.{
  bytes, ClusterPath, ok, to_string, cons_first, split, from_parts, parse_cluster_path,
}
use falak.Shared.Paths.RoundTrip.{NoSlash, IsComponent, parse_cluster_path-to_string}

abbrev local_path : ClusterPath
local_path = record { region = bytes "eu"; datacenter = bytes "b1"; cluster = bytes "k" }

eu-NoSlash : NoSlash (bytes "eu")
eu-NoSlash = ground arith

eu-IsComponent : IsComponent (bytes "eu")
eu-IsComponent = record { not_empty = refl; no_slash = eu-NoSlash }

b1-IsComponent : IsComponent (bytes "b1")
b1-IsComponent = record { not_empty = refl; no_slash = ground arith }

k-IsComponent : IsComponent (bytes "k")
k-IsComponent = record { not_empty = refl; no_slash = ground arith }

parse_cluster_path-to_string_example : parse_cluster_path (to_string local_path) ≡ ok local_path
parse_cluster_path-to_string_example =
    parse_cluster_path-to_string local_path eu-IsComponent b1-IsComponent k-IsComponent

text-parsed : parse_cluster_path (bytes "eu/b1/k") ≡ ok local_path
unfolding parse_cluster_path split cons_first from_parts
text-parsed = refl
