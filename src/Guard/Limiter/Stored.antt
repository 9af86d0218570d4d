-- ===== src/Guard/Limiter/Stored.antt =====
-- What node/internal/ratelimit/limiter.go stores for a key after a request and after a cleanup.
use falak.Prelude.{
  ℕ, ◌≤◌, ◌<◌, ◌≡◌, refl, ◌⊎◌, true, false, List, [], ◌∷◌, ◌++◌, none, String, Map, lookup, insert,
  keep, length, if◌then◌else◌, string_eq, arith, lookup-insert, ◌==◌, UniqueKeys,
}
use text.Mathlib.TextEquality.{eq_iff}
use falak.Guard.Limiter.{Limiter, or_empty, requests_of, in_window, allow, cleanup_entries}

-- The two ways in which `allow` ends.
pub allow-cases :
    (l : Limiter) (now : ℕ) (key : String)
    → let valid = in_window l.window now (requests_of l key) in
      ((l.max_reqs ≤ length valid)
        × (allow l now key ≡ (record l { requests = insert key valid l.requests }, false)))
      ⊎ ((length valid < l.max_reqs)
          × (allow l now key
              ≡ (record l { requests = insert key (valid ++ now ∷ []) l.requests }, true)))
unfolding allow
allow-cases l now key = ground arith

pub lookup-cleanup_none :
    (w now : ℕ) (key : String) (m : Map String (List ℕ))
    → lookup key m ≡ none
    → lookup key (cleanup_entries w now m) ≡ none
unfolding cleanup_entries lookup
lookup-cleanup_none w now key [] h = refl
lookup-cleanup_none w now key ((k, ts) ∷ m) h =
    ground (arith, eq_iff k key, lookup-cleanup_none w now key m)

pub cleanup_entries-UniqueKeys :
    (w now : ℕ) (m : Map String (List ℕ)) → UniqueKeys m → UniqueKeys (cleanup_entries w now m)
unfolding cleanup_entries
cleanup_entries-UniqueKeys w now [] u = tt
cleanup_entries-UniqueKeys w now ((k, ts) ∷ m) u =
    ground (arith, cleanup_entries-UniqueKeys w now m u.1, lookup-cleanup_none w now k m u.0)

pub requests-cleanup :
    (w now : ℕ) (key : String) (m : Map String (List ℕ))
    → UniqueKeys m
    → or_empty (lookup key (cleanup_entries w now m)) ≡ in_window w now (or_empty (lookup key m))
unfolding cleanup_entries lookup
requests-cleanup w now key [] u = unfold in_window keep in refl
requests-cleanup w now key ((k, ts) ∷ m) u = ground (
  arith,
  eq_iff k key,
  requests-cleanup w now key m u.1,
  lookup-cleanup_none w now k m u.0,
  lookup-cleanup_none w now key m,
)

pub requests-insert :
    (l : Limiter) (k key : String) (ts : List ℕ)
    → requests_of (record l { requests = insert k ts l.requests }) key
      ≡ (if k == key then ts else requests_of l key)
unfolding requests_of
requests-insert l k key ts = ground (arith, lookup-insert k key ts l.requests)
