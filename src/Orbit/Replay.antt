-- ===== src/Orbit/Replay.antt =====
-- A message that capsule/orbit/announcement.go has handled is not handled again.
use falak.Prelude.{
  ℕ, ◌+◌, ◌≤◌, ◌<◌, ◌≡◌, refl, ap, ◌⊎◌, Bool, true, false, List, [], ◌∷◌, Option, some, Map, lookup,
  has, Eq, arith, UniqueKeys, insert-UniqueKeys, lookup-insert, lookup-insert_self, Bool-cases, inl,
  inr, ltb,
}
use falak.Signing.{Bytes}
use falak.Guard.Dedup.{Deduplicator, evict, cleanup, is_duplicate_orbit}
use falak.Guard.Dedup.Replay.{Call, message, evicts, Ordered, end_time, evict-UniqueKeys}
use falak.Orbit.{
  OrbitEnvelope, max_message_age, accepted, refused, duplicate_message, stale_message, is_old,
  checked, handle_message,
}

module _ {ℓ} {K : Type ℓ} ⦃e : Eq K⦄ where
  lookup-evict :
      (ttl now at : ℕ) (k : K) (m : Map K ℕ)
      → UniqueKeys m
      → lookup k m ≡ some at
      → now ≤ at + ttl
      → lookup k (evict ttl now m) ≡ some at
  unfolding evict lookup
  lookup-evict ttl now at k [] u g h = g
  lookup-evict ttl now at k ((j, t) ∷ m) u g h =
      ground (arith, e.beq_iff j k, lookup-evict ttl now at k m u.1)

module _ {ℓ} {K : Type ℓ} ⦃e : Eq K⦄ (sha256 : Bytes → K) where
  -- The filter after some calls.
  pub run : Deduplicator K → List (Call Bytes) → Deduplicator K
  run d [] = d
  run d (message t m ∷ cs) = run (is_duplicate_orbit sha256 d t m).0 cs
  run d (evicts t ∷ cs) = run (cleanup d t) cs

  -- The hash is known since `at`, or its entry is older than the filter keeps one.
  record Known (max at : ℕ) (k : K) (d : Deduplicator K) (now : ℕ) : Type ℓ where
    kept : d.max_age ≡ max
    unique : UniqueKeys d.seen
    held : (lookup k d.seen ≡ some at) ⊎ (at + max < now)

  message-Known :
      (max at : ℕ) (k : K) (d : Deduplicator K) (now t : ℕ) (m : Bytes)
      → now ≤ t
      → Known max at k d now
      → Known max at k (is_duplicate_orbit sha256 d t m).0 t
  unfolding is_duplicate_orbit
  message-Known max at k d now t m h v = elim (Bool-cases (has (lookup (sha256 m) d.seen))) [
    | inl hit ↦
        rw (hit, is_duplicate_orbit)
          (record { kept = v.kept; unique = v.unique; held = ground (arith, v.held) })
    | inr miss ↦
        rw (miss, is_duplicate_orbit)
          (record {
            kept = v.kept;
            unique = insert-UniqueKeys (sha256 m) t d.seen v.unique;
            held =
                ground (arith, v.held, e.beq_iff (sha256 m) k, lookup-insert (sha256 m) k t d.seen);
          })
  ]

  evicts-Known :
      (max at : ℕ) (k : K) (d : Deduplicator K) (now t : ℕ)
      → now ≤ t
      → Known max at k d now
      → Known max at k (cleanup d t) t
  unfolding cleanup
  evicts-Known max at k d now t h v = record {
    kept = v.kept;
    unique = evict-UniqueKeys d.max_age t d.seen v.unique;
    held = elim v.held [
      | inr old ↦ inr (omega arith)
      | inl g ↦ elim (Bool-cases (ltb (at + max) t)) [
        | inl old ↦ inr (ground arith)
        | inr young ↦
            inl (lookup-evict d.max_age t at k d.seen v.unique g (let m = v.kept in ground arith))
      ]
    ];
  }

  run-Known :
      (max at : ℕ) (k : K) (d : Deduplicator K) (now : ℕ) (cs : List (Call Bytes))
      → Ordered now cs
      → Known max at k d now
      → Known max at k (run d cs) (end_time now cs)
  unfolding run
  run-Known max at k d now [] o v = v
  run-Known max at k d now (message t m ∷ cs) o v =
      run-Known max at k (is_duplicate_orbit sha256 d t m).0 t cs o.1
        (message-Known max at k d now t m o.0 v)
  run-Known max at k d now (evicts t ∷ cs) o v =
      run-Known max at k (cleanup d t) t cs o.1 (evicts-Known max at k d now t o.0 v)

  first-Known :
      (d : Deduplicator K) (now : ℕ) (m : Bytes)
      → UniqueKeys d.seen
      → has (lookup (sha256 m) d.seen) ≡ false
      → Known d.max_age now (sha256 m) (is_duplicate_orbit sha256 d now m).0 now
  unfolding is_duplicate_orbit
  first-Known d now m u miss =
      rw (miss, is_duplicate_orbit)
        (record {
          kept = refl;
          unique = insert-UniqueKeys (sha256 m) now d.seen u;
          held = inl (lookup-insert_self (sha256 m) now d.seen);
        })

  module _ {P : Type 0} (unmarshal_payload : Bytes → Bytes → Option P)
      (unmarshal : Bytes → Option OrbitEnvelope)
      (verifier : Option (Bytes → Bytes → Bytes → Bool)) where
    filter-handle_message :
        (d : Deduplicator K) (now : ℕ) (raw : Bytes)
        → (handle_message unmarshal_payload sha256 unmarshal verifier d now raw).0
          ≡ (is_duplicate_orbit sha256 d now raw).0
    unfolding handle_message
    filter-handle_message d now raw = refl

    accepted-new :
        (d : Deduplicator K) (now : ℕ) (raw : Bytes) (p : P)
        → (handle_message unmarshal_payload sha256 unmarshal verifier d now raw).1 ≡ accepted p
        → has (lookup (sha256 raw) d.seen) ≡ false
    unfolding handle_message is_duplicate_orbit
    accepted-new d now raw p h = elim (Bool-cases (has (lookup (sha256 raw) d.seen))) [
      | inr miss ↦ miss
      | inl hit ↦
          let no : refused duplicate_message ≡ accepted p = rw (hit, is_duplicate_orbit) at h in
          absurd (cc)
    ]

    later-refused :
        (d : Deduplicator K) (later sent : ℕ) (raw : Bytes) (env : OrbitEnvelope)
        → unmarshal raw ≡ some env
        → env.timestamp ≡ some sent
        → (has (lookup (sha256 raw) d.seen) ≡ true) ⊎ (sent + max_message_age < later)
        → let answer = (handle_message unmarshal_payload sha256 unmarshal verifier d later raw).1 in
          (answer ≡ refused duplicate_message) ⊎ (answer ≡ refused stale_message)
    unfolding handle_message is_duplicate_orbit checked is_old
    later-refused d later sent raw env u t h =
        elim (Bool-cases (has (lookup (sha256 raw) d.seen))) [
          | inl hit ↦ inl (rw (hit, is_duplicate_orbit) refl)
          | inr miss ↦ inr (rw (miss, is_duplicate_orbit) (rw (u, t) (ground (arith, h, miss))))
        ]

    -- A message with a time that is not in the future, once it has been handled, is refused as a
    -- duplicate or as stale whenever the same bytes come again, whatever messages and cleanups come
    -- in between, if the clock does not run back and the filter keeps its entries for 30 seconds
    -- or longer.
    pub handle_message-once :
        (d : Deduplicator K) (now later sent : ℕ) (cs : List (Call Bytes)) (raw : Bytes)
        (env : OrbitEnvelope) (p : P)
        → UniqueKeys d.seen
        → max_message_age ≤ d.max_age
        → unmarshal raw ≡ some env
        → env.timestamp ≡ some sent
        → sent ≤ now
        → (handle_message unmarshal_payload sha256 unmarshal verifier d now raw).1 ≡ accepted p
        → Ordered now cs
        → end_time now cs ≤ later
        → let after =
            run (handle_message unmarshal_payload sha256 unmarshal verifier d now raw).0 cs in
          let answer =
            (handle_message unmarshal_payload sha256 unmarshal verifier after later raw).1 in
          (answer ≡ refused duplicate_message) ⊎ (answer ≡ refused stale_message)
    handle_message-once d now later sent cs raw env p u long unmarshalled timed past done o q =
        let first = (is_duplicate_orbit sha256 d now raw).0 in
        let v =
          run-Known d.max_age now (sha256 raw) first now cs o
            (first-Known d now raw u (accepted-new d now raw p done)) in
        rw (filter-handle_message d now raw) (
          later-refused (run first cs) later sent raw env unmarshalled timed
            (elim v.held [ inl g ↦ inl (ap has g) | inr old ↦ inr (omega arith) ]))
