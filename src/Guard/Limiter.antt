-- ===== src/Guard/Limiter.antt =====
-- node/internal/ratelimit/limiter.go. Times and the window are numbers of one unit; `now` is an
-- argument of each call. A time is after `now - window` when `now < t + window`.
pub mod Window
pub mod Recent
mod Stored
use falak.Prelude.{
  ℕ, ◌+◌, ◌*◌, Bool, true, false, List, [], ◌∷◌, ◌++◌, Option, none, some, String, Map, lookup,
  insert, keep, length, is_nil, ltb, leb, if◌then◌else◌, string_eq,
}

pub record Limiter : Type 0 where
  pub requests : Map String (List ℕ)
  pub max_reqs : ℕ
  pub window : ℕ
  pub cleanup_int : ℕ

pub new_limiter : ℕ → ℕ → Limiter
new_limiter max_reqs window = record {
  requests = [];
  max_reqs = max_reqs;
  window = window;
  cleanup_int = window * 2;
}

-- `t.After(now.Add(-window))`.
abbrev pub after_cutoff : ℕ → ℕ → ℕ → Bool
after_cutoff window now t = ltb now (t + window)

-- A key with no entry reads as the empty slice.
abbrev pub or_empty : Option (List ℕ) → List ℕ
or_empty none = []
or_empty (some ts) = ts

pub requests_of : Limiter → String → List ℕ
requests_of l key = or_empty (lookup key l.requests)

-- The filter of `Allow` and of `cleanup`.
pub in_window : ℕ → ℕ → List ℕ → List ℕ
in_window window now = keep (after_cutoff window now)

pub allow : Limiter → ℕ → String → Limiter × Bool
unfolding requests_of in_window
allow l now key =
    let valid = in_window l.window now (requests_of l key) in
    if leb l.max_reqs (length valid)
    then (record l { requests = insert key valid l.requests }, false)
    else (record l { requests = insert key (valid ++ now ∷ []) l.requests }, true)

-- The loop of `cleanup` over the entries of the map.
pub cleanup_entries : ℕ → ℕ → Map String (List ℕ) → Map String (List ℕ)
unfolding in_window
cleanup_entries window now [] = []
cleanup_entries window now ((key, reqs) ∷ m) =
    let rest = cleanup_entries window now m in
    let valid = in_window window now reqs in if is_nil valid then rest else (key, valid) ∷ rest

pub cleanup : Limiter → ℕ → Limiter
unfolding cleanup_entries
cleanup l now = record l { requests = cleanup_entries l.window now l.requests }
