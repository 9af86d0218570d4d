-- ===== src/Guard/Dedup.antt =====
-- node/auth/dedup.go (`MessageDedup`) and capsule/orbit/subscription.go (`Deduplicator`). The hash
-- is a parameter, `sha256`; times and ages are numbers of one unit, and `now` is an argument.
pub mod Replay
use falak.Prelude.{
  ℕ, ◌+◌, Bool, true, false, List, [], ◌∷◌, Option, none, some, Map, lookup, insert, length, leb,
  ltb, has, if◌then◌else◌, Eq,
}

-- `time.Since(t) <= ttl` for the entry that the map has, if it has one.
abbrev pub is_live : ℕ → ℕ → Option ℕ → Bool
is_live ttl now none = false
is_live ttl now (some t) = leb now (t + ttl)

module _ {ℓ} {K : Type ℓ} where
  -- The loops of `evictExpired` and of `Cleanup`: entries with `now.Sub(t) > ttl` are deleted.
  unfoldable pub evict : ℕ → ℕ → Map K ℕ → Map K ℕ
  evict ttl now [] = []
  evict ttl now ((k, t) ∷ m) =
      let rest = evict ttl now m in if ltb (t + ttl) now then rest else (k, t) ∷ rest

pub record MessageDedup {ℓ} (K : Type ℓ) : Type ℓ where
  pub seen : Map K ℕ
  pub ttl : ℕ

pub record Deduplicator {ℓ} (K : Type ℓ) : Type ℓ where
  pub seen : Map K ℕ
  pub max_age : ℕ

abbrev pub default_max_age : ℕ
default_max_age = 300  -- seconds

module _ {ℓ} {K : Type ℓ} where
  pub new_message_dedup : ℕ → MessageDedup K
  new_message_dedup ttl = record { seen = []; ttl = ttl }

  pub new_deduplicator : ℕ → Deduplicator K
  new_deduplicator max_age = record { seen = []; max_age = max_age }

  pub len : MessageDedup K → ℕ
  len d = length d.seen

  pub evict_expired : MessageDedup K → ℕ → MessageDedup K
  unfolding evict
  evict_expired d now = record d { seen = evict d.ttl now d.seen }

  unfoldable pub cleanup : Deduplicator K → ℕ → Deduplicator K
  unfolding evict
  cleanup d now = record d { seen = evict d.max_age now d.seen }

  pub size : Deduplicator K → ℕ
  size d = length d.seen

module _ {ℓ κ} {Message : Type κ} {K : Type ℓ} ⦃e : Eq K⦄ (sha256 : Message → K) where
  pub is_duplicate : MessageDedup K → ℕ → Message → MessageDedup K × Bool
  is_duplicate d now message =
      let fingerprint = sha256 message in
      if is_live d.ttl now (lookup fingerprint d.seen)
      then (d, true)
      else (record d { seen = insert fingerprint now d.seen }, false)

  -- `Deduplicator.IsDuplicate` does not look at the age of the entry.
  unfoldable pub is_duplicate_orbit : Deduplicator K → ℕ → Message → Deduplicator K × Bool
  is_duplicate_orbit d now message =
      let hash = sha256 message in
      if has (lookup hash d.seen)
      then (d, true)
      else (record d { seen = insert hash now d.seen }, false)
