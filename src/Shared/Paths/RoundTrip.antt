-- ===== src/Shared/Paths/RoundTrip.antt =====
-- Parsing and printing of the cluster paths of shared/paths.go.
use falak.Prelude.{
  ℕ, subst, ◌≡◌, refl, ◌≢◌, ◌∙◌, ap, sym, false, List, [], ◌∷◌, ◌++◌, All, arith, nat_beq,
  Bool-cases, inl, inr, is_nil,
}
use falak.Shared.Paths.{
  Bytes, slash, ClusterPath, to_string, split, cons_first, ok, from_parts, parse_cluster_path,
  or_default, default_region, default_datacenter, build_cluster_path,
}

-- A component of a path: not empty, and with no slash in it.
abbrev pub NoSlash : Bytes → Type 0
NoSlash s = All (λ c. c ≢ slash) s

pub record IsComponent (s : Bytes) : Type 0 where
  pub not_empty : is_nil s ≡ false
  pub no_slash : NoSlash s

split-append : (a s : Bytes) → NoSlash a → split (a ++ slash ∷ s) ≡ a ∷ split s
unfolding split
split-append [] s h = refl
split-append (c ∷ a) s h = ground (arith, split-append a s h.1)

split-component : (a : Bytes) → NoSlash a → split a ≡ a ∷ []
unfolding split
split-component [] h = refl
split-component (c ∷ a) h = ground (arith, split-component a h.1)

-- The pieces joined again.
abbrev join : List Bytes → Bytes
join [] = []
join (x ∷ []) = x
join (x ∷ y ∷ xs) = x ++ slash ∷ join (y ∷ xs)

-- A printed path whose components are not empty and hold no slash is parsed to itself.
pub parse_cluster_path-to_string :
    (cp : ClusterPath)
    → IsComponent cp.region
    → IsComponent cp.datacenter
    → IsComponent cp.cluster
    → parse_cluster_path (to_string cp) ≡ ok cp
unfolding parse_cluster_path to_string
parse_cluster_path-to_string cp r d c =
    rw
      (
        split-append cp.region _ r.no_slash,
        split-append cp.datacenter _ d.no_slash,
        split-component cp.cluster c.no_slash,
      )
      (ground arith)

-- A split has at least one piece.
split-cons : (s : Bytes) → (x : Bytes) × (xs : List Bytes) × (split s ≡ x ∷ xs)
unfolding split
split-cons [] = ([], [], refl)
split-cons (c ∷ s) = elim (Bool-cases (nat_beq c slash)) [
  | inl e ↦ ([], split s, ground arith)
  | inr e ↦ let (x, xs, h) = split-cons s in (c ∷ x, xs, ground arith)
]

join-slash : (s : Bytes) → join ([] ∷ split s) ≡ slash ∷ join (split s)
join-slash s = let (x, xs, h) = split-cons s in rw h

join-cons_first : (c : ℕ) (xs : List Bytes) → join (cons_first c xs) ≡ c ∷ join xs
unfolding cons_first
join-cons_first c [] = refl
join-cons_first c (x ∷ []) = refl
join-cons_first c (x ∷ y ∷ xs) = refl

join-split : (s : Bytes) → join (split s) ≡ s
unfolding split
join-split [] = refl
join-split (c ∷ s) = elim (Bool-cases (nat_beq c slash)) [
  | inl e ↦ rw (e, split) (join-slash s ∙ ground (arith, join-split s))
  | inr e ↦ rw (e, split) (join-cons_first c (split s) ∙ ap (λ x. c ∷ x) (join-split s))
]

split-NoSlash : (s : Bytes) → All NoSlash (split s)
unfolding split
split-NoSlash [] = (tt, tt)
split-NoSlash (c ∷ s) = elim (Bool-cases (nat_beq c slash)) [
  | inl e ↦ rw (e, split) (tt, split-NoSlash s)
  | inr e ↦ rw (e, split) (first c (split s) (ground arith) (split-NoSlash s))
]
  where
    first : (c : ℕ) (xs : List Bytes) → c ≢ slash → All NoSlash xs → All NoSlash (cons_first c xs)
    first c [] h a = unfold cons_first in ((h, tt), tt)
    first c (x ∷ xs) h a = unfold cons_first in ((h, a.0), a.1)

from_parts-ok :
    (xs : List Bytes) (cp : ClusterPath)
    → from_parts xs ≡ ok cp
    → (join xs ≡ to_string cp)
      × (is_nil cp.region ≡ false)
      × (is_nil cp.datacenter ≡ false)
      × (is_nil cp.cluster ≡ false)
      × (xs ≡ cp.region ∷ cp.datacenter ∷ cp.cluster ∷ [])
unfolding from_parts to_string
from_parts-ok (r ∷ d ∷ c ∷ []) cp h = ground arith
from_parts-ok _ cp h = absurd (ground arith)

-- A path that is parsed is the printed form of the result, whose components are not empty and hold
-- no slash.
pub to_string-parse_cluster_path :
    (path : Bytes) (cp : ClusterPath)
    → parse_cluster_path path ≡ ok cp
    → (to_string cp ≡ path)
      × IsComponent cp.region
      × IsComponent cp.datacenter
      × IsComponent cp.cluster
unfolding parse_cluster_path
to_string-parse_cluster_path path cp h =
    let (j, r, d, c, parts) = from_parts-ok (split path) cp h in
    let slashes = subst (All NoSlash) parts (split-NoSlash path) in
    (
      sym j ∙ join-split path,
      record { not_empty = r; no_slash = slashes.0 },
      record { not_empty = d; no_slash = slashes.1.0 },
      record { not_empty = c; no_slash = slashes.1.1.0 },
    )

or_default-IsComponent : (s d : Bytes) → NoSlash s → IsComponent d → IsComponent (or_default s d)
or_default-IsComponent [] d h c = c
or_default-IsComponent (x ∷ s) d h c = record { not_empty = refl; no_slash = h }

default-IsComponent : IsComponent default_region
default-IsComponent = record { not_empty = refl; no_slash = omega arith }

-- A path that is built from parts with no slash, the cluster not empty, is parsed to those parts,
-- with "default" for a region or a datacenter that is empty.
pub parse_cluster_path-build :
    (r d c : Bytes)
    → NoSlash r
    → NoSlash d
    → IsComponent c
    → parse_cluster_path (build_cluster_path r d c)
      ≡ ok (record {
        region = or_default r default_region;
        datacenter = or_default d default_datacenter;
        cluster = c;
      })
unfolding build_cluster_path to_string
parse_cluster_path-build r d c p q h =
    parse_cluster_path-to_string _ (or_default-IsComponent r default_region p default-IsComponent)
      (or_default-IsComponent d default_datacenter q default-IsComponent) h
