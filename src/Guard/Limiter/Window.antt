-- ===== src/Guard/Limiter/Window.antt =====
-- How many requests of node/internal/ratelimit/limiter.go pass in a window.
use falak.Prelude.{
  ℕ, ◌≤◌, ◌<◌, ◌≡◌, refl, ◌∙◌, ap, sym, subst, ◌&&◌, Bool, true, false, List, [], ◌∷◌, ◌++◌, String,
  lookup, insert, length, if◌then◌else◌, string_eq, arith, insert-UniqueKeys, beq_refl, eq_of_beq,
  beq_of_ne, ◌↔◌, ◌≢◌, ◌==◌, Bool-cases, inl, inr, UniqueKeys,
}
use falak.Guard.Limiter.{Limiter, new_limiter, requests_of, in_window, allow, cleanup}
use falak.Guard.Limiter.Recent.{
  recent, recent_lem, recent-append, recent-cons_cong, recent-cons_le, recent-in_window,
  recent_mono, recent_none,
}
use falak.Guard.Limiter.Stored.{
  allow-cases, cleanup_entries-UniqueKeys, requests-cleanup, requests-insert,
}

-- A call: the limiter's clock when it runs, and the key, or a run of the background cleanup.
pub data Call : Type 0 where
  request : ℕ → String → Call
  sweep : ℕ → Call

abbrev pub time : Call → ℕ
time (request now key) = now
time (sweep now) = now

-- The limiter after some calls, with the times at which `key` was let through, latest first.
pub run : String → Limiter → List ℕ → List Call → Limiter × List ℕ
run key l passed [] = (l, passed)
run key l passed (request now k ∷ cs) =
    let (l', allowed) = allow l now k in
    run key l' (if allowed && k == key then now ∷ passed else passed) cs
run key l passed (sweep now ∷ cs) = run key (cleanup l now) passed cs

-- The calls come in the order of the clock, the first not before `t`.
abbrev pub Ordered : ℕ → List Call → Type 0
Ordered t [] = Unit
Ordered t (c ∷ cs) = (t ≤ time c) × Ordered (time c) cs

-- For a limiter of `n` requests in a window of `w` whose clock reads `now`: what it stores for the
-- key has every passed time that is still in the window, and there are at most `n` of those.
record Inv (key : String) (w n : ℕ) (l : Limiter) (now : ℕ) (passed : List ℕ) : Type 0 where
  window_kept : l.window ≡ w
  max_kept : l.max_reqs ≡ n
  unique : UniqueKeys l.requests
  counted : (later : ℕ) → now ≤ later → recent w later passed ≡ recent w later (requests_of l key)
  capped : recent w now passed ≤ n

module _ (key : String) (w n : ℕ) (l : Limiter) (now later : ℕ) (passed : List ℕ) where
  sweep-Inv : now ≤ later → Inv key w n l now passed → Inv key w n (cleanup l later) later passed
  unfolding cleanup requests_of
  sweep-Inv h v = record {
    window_kept = v.window_kept;
    max_kept = v.max_kept;
    unique = cleanup_entries-UniqueKeys l.window later l.requests v.unique;
    counted = λ t q.
        v.counted t (omega arith)
        ∙ sym (recent-in_window w later t (requests_of l key) q)
        ∙ ap (recent w t)
            (sym (rw (← v.window_kept) (requests-cleanup l.window later key l.requests v.unique)));
    capped = omega (arith, recent_mono w now later passed h, v.capped);
  }

  -- A request of another key.
  other-Inv :
      (k : String)
      → (k == key) ≡ false
      → now ≤ later
      → Inv key w n l now passed
      → Inv key w n (allow l later k).0 later passed
  other-Inv k d h v = elim (allow-cases l later k) [
    | inl (_, e) ↦ rw e (keeps (in_window l.window later (requests_of l k)))
    | inr (_, e) ↦ rw e (keeps (in_window l.window later (requests_of l k) ++ later ∷ []))
  ]
    where
      keeps :
          (ts : List ℕ) → Inv key w n (record l { requests = insert k ts l.requests }) later passed
      keeps ts = record {
        window_kept = v.window_kept;
        max_kept = v.max_kept;
        unique = insert-UniqueKeys k ts l.requests v.unique;
        counted = λ t q.
            v.counted t (omega arith) ∙ ap (recent w t) (sym (requests-insert l k key ts ∙ rw d));
        capped = omega (arith, recent_mono w now later passed h, v.capped);
      }

  -- A request of the key itself.
  own-Inv :
      now ≤ later
      → Inv key w n l now passed
      → Inv key w n
          (allow l later key).0
          later
          (if (allow l later key).1 then later ∷ passed else passed)
  own-Inv h v = elim (allow-cases l later key) [
    | inl (full, e) ↦ rw e (record {
      window_kept = v.window_kept;
      max_kept = v.max_kept;
      unique = insert-UniqueKeys key _ l.requests v.unique;
      counted = λ t q.
          v.counted t (omega arith)
          ∙ sym (recent-in_window w later t (requests_of l key) q)
          ∙ ap (recent w t)
              (sym (stored (in_window l.window later (requests_of l key)) ∙ rw v.window_kept));
      capped = omega (arith, recent_mono w now later passed h, v.capped);
    })
    | inr (room, e) ↦ rw e (record {
      window_kept = v.window_kept;
      max_kept = v.max_kept;
      unique = insert-UniqueKeys key _ l.requests v.unique;
      counted = λ t q.
          recent-cons_cong w t later passed (in_window w later (requests_of l key))
            (v.counted t (omega arith) ∙ sym (recent-in_window w later t (requests_of l key) q))
          ∙ sym (recent-append w t later (in_window w later (requests_of l key)))
          ∙ ap (recent w t) (
              sym (
                stored (in_window l.window later (requests_of l key) ++ later ∷ [])
                ∙ rw v.window_kept));
      capped = omega (
        arith,
        recent-cons_le w later later passed,
        v.counted later h,
        recent_lem w later (requests_of l key),
        subst (λ x. length (in_window x later (requests_of l key)) < l.max_reqs) v.window_kept room,
        v.max_kept,
      );
    })
  ]
    where
      stored :
          (ts : List ℕ) → requests_of (record l { requests = insert key ts l.requests }) key ≡ ts
      stored ts = requests-insert l key key ts ∙ rw (beq_refl key)

and_true : (b : Bool) → (b && true) ≡ b
and_true b = ground arith

and_false : (b : Bool) → (b && false) ≡ false
and_false b = ground arith

-- The passed times after a request.
abbrev note : String → List ℕ → ℕ → String → Bool → List ℕ
note key passed t k allowed = if allowed && k == key then t ∷ passed else passed

request-Inv :
    (key : String) (w n : ℕ) (l : Limiter) (now t : ℕ) (passed : List ℕ) (k : String)
    → now ≤ t
    → Inv key w n l now passed
    → Inv key w n (allow l t k).0 t (note key passed t k (allow l t k).1)
request-Inv key w n l now t passed k h v = elim (Bool-cases (k == key)) [
  | inl same ↦
      subst (λ x. Inv key w n (allow l t x).0 t (note key passed t x (allow l t x).1))
        (sym (eq_of_beq k key same))
        (rw (beq_refl key, and_true (allow l t key).1) (own-Inv key w n l now t passed h v))
  | inr d ↦ rw (d, and_false (allow l t k).1) (other-Inv key w n l now t passed k d h v)
]

abbrev pub end_time : ℕ → List Call → ℕ
end_time t [] = t
end_time t (c ∷ cs) = end_time (time c) cs

run-Inv :
    (key : String) (w n : ℕ) (l : Limiter) (now : ℕ) (passed : List ℕ) (cs : List Call)
    → Ordered now cs
    → Inv key w n l now passed
    → Inv key w n (run key l passed cs).0 (end_time now cs) (run key l passed cs).1
unfolding run
run-Inv key w n l now passed [] o v = v
run-Inv key w n l now passed (sweep t ∷ cs) o v =
    run-Inv key w n (cleanup l t) t passed cs o.1 (sweep-Inv key w n l now t passed o.0 v)
run-Inv key w n l now passed (request t k ∷ cs) o v =
    run-Inv key w n (allow l t k).0 t (note key passed t k (allow l t k).1) cs o.1
      (request-Inv key w n l now t passed k o.0 v)

new_limiter-Inv : (key : String) (w n now : ℕ) → Inv key w n (new_limiter n w) now []
unfolding new_limiter requests_of lookup
new_limiter-Inv key w n now = record {
  window_kept = refl;
  max_kept = refl;
  unique = tt;
  counted = λ t q. refl;
  capped = omega (arith, recent_none w now);
}

-- Whatever the calls on a fresh limiter, of any keys and with cleanups in between, if the clock
-- does not run back then at their end, and at every later time, at most `max_reqs` of the requests
-- of a key that passed lie in the window.
pub run-bounded :
    (key : String) (max_reqs window start later : ℕ) (cs : List Call)
    → Ordered start cs
    → end_time start cs ≤ later
    → recent window later (run key (new_limiter max_reqs window) [] cs).1 ≤ max_reqs
run-bounded key max_reqs window start later cs o q =
    let v =
      run-Inv key window max_reqs (new_limiter max_reqs window) start [] cs o
        (new_limiter-Inv key window max_reqs start) in
    omega (arith, recent_mono window (end_time start cs) later _ q, v.capped)

-- A request passes exactly when fewer than `max_reqs` of the stored times of its key lie in the
-- window.
pub allow_iff :
    (l : Limiter) (now : ℕ) (key : String)
    → ((allow l now key).1 ≡ true) ↔ (recent l.window now (requests_of l key) < l.max_reqs)
allow_iff l now key = elim (allow-cases l now key) [
  | inl (full, e) ↦ rw e (ground (arith, recent_lem l.window now (requests_of l key)))
  | inr (room, e) ↦ rw e (ground (arith, recent_lem l.window now (requests_of l key)))
]

-- A request of one key changes nothing of what is stored for another.
pub requests-allow :
    (l : Limiter) (now : ℕ) (key other : String)
    → other ≢ key
    → requests_of (allow l now key).0 other ≡ requests_of l other
requests-allow l now key other h = elim (allow-cases l now key) [
  | inl (full, e) ↦ rw e (untouched (in_window l.window now (requests_of l key)))
  | inr (room, e) ↦ rw e (untouched (in_window l.window now (requests_of l key) ++ now ∷ []))
]
  where
    untouched :
        (ts : List ℕ)
        → requests_of (record l { requests = insert key ts l.requests }) other ≡ requests_of l other
    untouched ts = requests-insert l key other ts ∙ rw (beq_of_ne key other (λ e. h (sym e)))
