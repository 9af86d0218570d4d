-- ===== src/Guard/Dedup/Replay.antt =====
-- Which messages node/auth/dedup.go and capsule/orbit/subscription.go take for replays.
use falak.Prelude.{
  ℕ, ◌≤◌, ◌≡◌, refl, ◌∙◌, Bool, List, [], ◌∷◌, none, Map, lookup, if◌then◌else◌, Eq, arith,
  UniqueKeys, insert-UniqueKeys, lookup-insert, Bool-cases, inl, inr,
}
use falak.Guard.Dedup.{is_live, evict, MessageDedup, new_message_dedup, evict_expired, is_duplicate}

module _ {ℓ} {K : Type ℓ} ⦃e : Eq K⦄ where
  pub lookup-evict-none :
      (ttl now : ℕ) (k : K) (m : Map K ℕ) → lookup k m ≡ none → lookup k (evict ttl now m) ≡ none
  unfolding evict lookup
  lookup-evict-none ttl now k [] h = refl
  lookup-evict-none ttl now k ((j, t) ∷ m) h =
      ground (arith, e.beq_iff j k, lookup-evict-none ttl now k m)

  pub evict-UniqueKeys : (ttl now : ℕ) (m : Map K ℕ) → UniqueKeys m → UniqueKeys (evict ttl now m)
  unfolding evict
  evict-UniqueKeys ttl now [] u = tt
  evict-UniqueKeys ttl now ((k, t) ∷ m) u =
      ground (arith, evict-UniqueKeys ttl now m u.1, lookup-evict-none ttl now k m u.0)

  -- An eviction is not seen by later lookups of live entries.
  is_live-evict :
      (ttl now later : ℕ) (k : K) (m : Map K ℕ)
      → UniqueKeys m
      → now ≤ later
      → is_live ttl later (lookup k (evict ttl now m)) ≡ is_live ttl later (lookup k m)
  unfolding evict lookup
  is_live-evict ttl now later k [] u h = refl
  is_live-evict ttl now later k ((j, t) ∷ m) u h = ground (
    arith,
    e.beq_iff j k,
    is_live-evict ttl now later k m u.1,
    lookup-evict-none ttl now j m u.0,
    lookup-evict-none ttl now k m,
  )

-- A message that arrives, or a run of the cleanup, with the clock's time.
pub data Call {ℓ} (Message : Type ℓ) : Type ℓ where
  message : ℕ → Message → Call Message
  evicts : ℕ → Call Message

module _ {ℓ} {Message : Type ℓ} where
  abbrev pub time : Call Message → ℕ
  time (message t m) = t
  time (evicts t) = t

  -- The calls come in the order of the clock, the first not before `t`.
  abbrev pub Ordered : ℕ → List (Call Message) → Type 0
  Ordered t [] = Unit
  Ordered t (c ∷ cs) = (t ≤ time c) × Ordered (time c) cs

  abbrev pub end_time : ℕ → List (Call Message) → ℕ
  end_time t [] = t
  end_time t (c ∷ cs) = end_time (time c) cs

module _ {ℓ κ} {Message : Type κ} {K : Type ℓ} ⦃e : Eq K⦄ (sha256 : Message → K) where
  -- The hashes accepted, with their times, after a message: the latest first.
  abbrev pub note : Map K ℕ → ℕ → Message → Bool → Map K ℕ
  note accepted t m duplicate = if duplicate then accepted else (sha256 m, t) ∷ accepted

  -- The filter after some calls, and what it accepted.
  pub run : MessageDedup K → Map K ℕ → List (Call Message) → MessageDedup K × Map K ℕ
  run d accepted [] = (d, accepted)
  run d accepted (message t m ∷ cs) =
      let (d', duplicate) = is_duplicate sha256 d t m in run d' (note accepted t m duplicate) cs
  run d accepted (evicts t ∷ cs) = run (evict_expired d t) accepted cs

  record Inv (ttl : ℕ) (d : MessageDedup K) (now : ℕ) (accepted : Map K ℕ) : Type ℓ where
    ttl_kept : d.ttl ≡ ttl
    unique : UniqueKeys d.seen
    agreed :
        (later : ℕ) (k : K)
        → now ≤ later
        → is_live ttl later (lookup k d.seen) ≡ is_live ttl later (lookup k accepted)

  message-Inv :
      (ttl : ℕ) (d : MessageDedup K) (now t : ℕ) (accepted : Map K ℕ) (m : Message)
      → now ≤ t
      → Inv ttl d now accepted
      → Inv ttl (is_duplicate sha256 d t m).0 t (note accepted t m (is_duplicate sha256 d t m).1)
  unfolding is_duplicate
  message-Inv ttl d now t accepted m h v =
      elim (Bool-cases (is_live d.ttl t (lookup (sha256 m) d.seen))) [
        | inl hit ↦
            rw (hit, is_duplicate)
              (record {
                ttl_kept = v.ttl_kept;
                unique = v.unique;
                agreed = λ later k q. v.agreed later k (omega arith);
              })
        | inr miss ↦
            rw (miss, is_duplicate)
              (record {
                ttl_kept = v.ttl_kept;
                unique = insert-UniqueKeys (sha256 m) t d.seen v.unique;
                agreed = λ later k q.
                    unfold lookup in
                    ground (arith, lookup-insert (sha256 m) k t d.seen, v.agreed later k);
              })
      ]

  evicts-Inv :
      (ttl : ℕ) (d : MessageDedup K) (now t : ℕ) (accepted : Map K ℕ)
      → now ≤ t
      → Inv ttl d now accepted
      → Inv ttl (evict_expired d t) t accepted
  unfolding evict_expired
  evicts-Inv ttl d now t accepted h v = record {
    ttl_kept = v.ttl_kept;
    unique = evict-UniqueKeys d.ttl t d.seen v.unique;
    agreed = λ later k q.
        rw v.ttl_kept (is_live-evict ttl t later k d.seen v.unique q)
        ∙ v.agreed later k (omega arith);
  }

  run-Inv :
      (ttl : ℕ) (d : MessageDedup K) (now : ℕ) (accepted : Map K ℕ) (cs : List (Call Message))
      → Ordered now cs
      → Inv ttl d now accepted
      → Inv ttl (run d accepted cs).0 (end_time now cs) (run d accepted cs).1
  unfolding run
  run-Inv ttl d now accepted [] o v = v
  run-Inv ttl d now accepted (message t m ∷ cs) o v =
      run-Inv ttl (is_duplicate sha256 d t m).0 t (note accepted t m (is_duplicate sha256 d t m).1)
        cs o.1 (message-Inv ttl d now t accepted m o.0 v)
  run-Inv ttl d now accepted (evicts t ∷ cs) o v =
      run-Inv ttl (evict_expired d t) t accepted cs o.1 (evicts-Inv ttl d now t accepted o.0 v)

  -- After any calls on a fresh filter, with cleanups in between and a clock that does not run back,
  -- a message is called a duplicate exactly when the last message with its hash that was accepted
  -- is not older than the TTL.
  pub is_duplicate-run :
      (ttl start later : ℕ) (cs : List (Call Message)) (m : Message)
      → Ordered start cs
      → end_time start cs ≤ later
      → let (d, accepted) = run (new_message_dedup ttl) [] cs in
        (is_duplicate sha256 d later m).1 ≡ is_live ttl later (lookup (sha256 m) accepted)
  is_duplicate-run ttl start later cs m o q =
      let v = run-Inv ttl (new_message_dedup ttl) start [] cs o (
        unfold new_message_dedup in
        record { ttl_kept = refl; unique = tt; agreed = λ t k p. refl }) in
      verdict _ v.ttl_kept ∙ v.agreed later (sha256 m) q
    where
      verdict :
          (d : MessageDedup K)
          → d.ttl ≡ ttl
          → (is_duplicate sha256 d later m).1 ≡ is_live ttl later (lookup (sha256 m) d.seen)
      verdict d h = unfold is_duplicate in rw h (ground arith)
