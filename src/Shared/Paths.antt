-- ===== src/Shared/Paths.antt =====
-- shared/paths.go. A path is its bytes.
mod RoundTrip
mod Tests
use falak.Prelude.{
  ℕ, Bool, true, false, ◌||◌, List, [], ◌∷◌, ◌++◌, Option, none, some, nat_beq, if◌then◌else◌,
  is_nil, String,
}
use Prim.Native.Char.{code}

abbrev pub Bytes : Type 0
Bytes = List ℕ

-- A text literal as bytes (the literals of the source are ASCII).
abbrev pub bytes : String → Bytes
bytes String.[] = []
bytes (String.◌∷◌ c s) = code c ∷ bytes s

abbrev pub slash : ℕ
slash = b'/'

pub record ClusterPath : Type 0 where
  pub region : Bytes
  pub datacenter : Bytes
  pub cluster : Bytes

pub to_string : ClusterPath → Bytes
to_string cp = cp.region ++ slash ∷ (cp.datacenter ++ slash ∷ cp.cluster)

-- The standard library's `strings.Split(path, "/")`.
pub cons_first : ℕ → List Bytes → List Bytes
cons_first c [] = (c ∷ []) ∷ []
cons_first c (x ∷ xs) = (c ∷ x) ∷ xs

pub split : Bytes → List Bytes
unfolding cons_first
split [] = [] ∷ []
split (c ∷ s) = let parts = split s in if nat_beq c slash then [] ∷ parts else cons_first c parts

pub data PathError : Type 0 where
  bad_format empty_component : PathError

pub data Parsed : Type 0 where
  ok : ClusterPath → Parsed
  err : PathError → Parsed

pub from_parts : List Bytes → Parsed
from_parts (r ∷ d ∷ c ∷ []) =
    if is_nil r || is_nil d || is_nil c
    then err empty_component
    else ok (record { region = r; datacenter = d; cluster = c })
from_parts _ = err bad_format

pub parse_cluster_path : Bytes → Parsed
unfolding split from_parts
parse_cluster_path path = from_parts (split path)

pub extract_region : Bytes → Bytes
unfolding parse_cluster_path
extract_region path = elim (parse_cluster_path path) [ ok cp ↦ cp.region | err e ↦ [] ]

pub extract_datacenter : Bytes → Bytes
unfolding parse_cluster_path
extract_datacenter path = elim (parse_cluster_path path) [ ok cp ↦ cp.datacenter | err e ↦ [] ]

pub extract_cluster : Bytes → Bytes
unfolding parse_cluster_path
extract_cluster path = elim (parse_cluster_path path) [ ok cp ↦ cp.cluster | err e ↦ [] ]

abbrev pub default_region : Bytes
default_region = bytes "default"

abbrev pub default_datacenter : Bytes
default_datacenter = bytes "default"

abbrev pub or_default : Bytes → Bytes → Bytes
or_default s d = if is_nil s then d else s

pub build_cluster_path : Bytes → Bytes → Bytes → Bytes
build_cluster_path region datacenter cluster =
    or_default region default_region
    ++ slash ∷ (or_default datacenter default_datacenter ++ slash ∷ cluster)

pub build_health_topic : Bytes → Bytes
build_health_topic path = bytes "falak/" ++ (path ++ bytes "/health")

pub build_auth_topic : Bytes → Bytes
build_auth_topic path = bytes "falak/" ++ (path ++ bytes "/auth")

pub build_metrics_topic : Bytes → Bytes
build_metrics_topic path = bytes "falak/" ++ (path ++ bytes "/metrics")
