-- ===== src/Runtime/Handler/Watches.antt =====
-- The watchers of runtime/handler.go: one per container, and no more restarts than allowed.
use falak.Prelude.{
  ℕ, ◌+◌, ◌≤◌, ◌<◌, ◌≡◌, refl, sym, subst, ◌∙◌, ◌⊎◌, ◌≢◌, none, some, String, Map, lookup, insert,
  delete, lookup-insert, lookup-insert_self, lookup-delete, nat_eq, list_eq, eq_of_beq, beq_of_ne,
  nat_beq_iff, ◌==◌, Bool-cases, Option-cases, inl, inr, arith,
}
use falak.Shared.Paths.{Bytes}
use falak.Runtime.Handler.{
  Handler, Watcher, Effect, mark_running, CapsuleSpec, effect, cancel, cancel_old, begin_watch,
  drop_watch, on_container_running, give_up,
}

-- A live watcher is the one that `running` names for its container, and has not restarted it more
-- often than allowed.
abbrev pub Sound : Map Bytes ℕ → ℕ → ℕ → Watcher → Type 0
Sound running next w x =
    (lookup x.container running ≡ some w) × (w < next) × (x.local_restarts ≤ x.restart_limit)

abbrev pub AllSound : Handler → Type 0
AllSound h = (w : ℕ) (x : Watcher) → lookup w h.watchers ≡ some x → Sound h.running h.next w x

pub effect-AllSound : (h : Handler) (e : Effect) → AllSound h → AllSound (effect h e)
unfolding effect
effect-AllSound h e v = v

pub cancel-AllSound : (h : Handler) (w : ℕ) → AllSound h → AllSound (cancel h w)
unfolding cancel
cancel-AllSound h w v other x g = elim (Bool-cases (w == other)) [
  | inl same ↦ absurd (ground (arith, lookup-delete w other h.watchers))
  | inr d ↦ v other x (sym (lookup-delete w other h.watchers ∙ rw d) ∙ g)
]

-- The watcher of a container goes with its entry.
dropped-AllSound :
    (h : Handler) (w : ℕ) (c : Bytes)
    → ((other : ℕ) (x : Watcher) → lookup other h.watchers ≡ some x → x.container ≡ c → other ≡ w)
    → AllSound h
    → AllSound (record (cancel h w) { running = delete c h.running })
unfolding cancel
dropped-AllSound h w c only v other x g = elim (Bool-cases (w == other)) [
  | inl same ↦ absurd (ground (arith, lookup-delete w other h.watchers))
  | inr d ↦
      let there = sym (lookup-delete w other h.watchers ∙ rw d) ∙ g in
      let s = v other x there in
      elim (Bool-cases (c == x.container)) [
        | inl here ↦
            let e : other ≡ w = only other x there (sym (eq_of_beq c x.container here)) in
            absurd (ground (arith, nat_beq_iff w other))
        | inr away ↦ (lookup-delete c x.container h.running ∙ (rw away) ∙ s.0, s.1, s.2)
      ]
]

-- The watcher that `running` names is the only live one of its container.
only_named :
    (h : Handler) (w : ℕ) (c : Bytes)
    → AllSound h
    → lookup c h.running ≡ some w
    → (other : ℕ) (x : Watcher) → lookup other h.watchers ≡ some x
    → x.container ≡ c
    → other ≡ w
only_named h w c v named other x g e =
    let s : lookup c h.running ≡ some other =
      subst (λ k. lookup k h.running ≡ some other) e (v other x g).0 in
    cc

pub drop_watch-cases :
    (h : Handler) (c : Bytes)
    → ((lookup c h.running ≡ none) × (drop_watch h c ≡ h))
      ⊎ ((w : ℕ) × (lookup c h.running ≡ some w)
          × (drop_watch h c ≡ record (cancel h w) { running = delete c h.running }))
unfolding drop_watch cancel
drop_watch-cases h c = elim (Option-cases (lookup c h.running)) [
  | inl g ↦ inl (g, rw (g, drop_watch) refl)
  | inr (w, g) ↦ inr (w, g, rw (g, drop_watch) refl)
]

pub drop_watch-AllSound : (h : Handler) (c : Bytes) → AllSound h → AllSound (drop_watch h c)
drop_watch-AllSound h c v = elim (drop_watch-cases h c) [
  | inl (g, e) ↦ subst AllSound (sym e) v
  | inr (w, named, e) ↦ subst AllSound (sym e) (dropped-AllSound h w c (only_named h w c v named) v)
]

pub give_up-AllSound :
    (h : Handler) (w : ℕ) (x : Watcher) (code : ℕ)
    → lookup x.container h.running ≡ some w
    → AllSound h
    → AllSound (give_up h w x code)
unfolding give_up effect
give_up-AllSound h w x code named v =
    dropped-AllSound h w x.container (only_named h w x.container v named) v

-- A watcher that is counted again.
pub updated-AllSound :
    (h : Handler) (w : ℕ) (x : Watcher)
    → Sound h.running h.next w x
    → AllSound h
    → AllSound (record h { watchers = insert w x h.watchers })
updated-AllSound h w x s v other y g = elim (Bool-cases (w == other)) [
  | inl same ↦ ground (arith, nat_beq_iff w other, lookup-insert w other x h.watchers)
  | inr d ↦ v other y (sym (lookup-insert w other x h.watchers ∙ rw d) ∙ g)
]

-- A watcher under a new number, once its container has none.
started-AllSound :
    (h : Handler) (x : Watcher)
    → x.local_restarts ≤ x.restart_limit
    → ((other : ℕ) (y : Watcher) → lookup other h.watchers ≡ some y → y.container ≢ x.container)
    → AllSound h
    → AllSound (begin_watch h x)
unfolding begin_watch
started-AllSound h x low none_there v other y g = elim (Bool-cases (h.next == other)) [
  | inl same ↦
      let e : some x ≡ some y = sym (lookup-insert h.next other x h.watchers ∙ rw same) ∙ g in
      let own : Sound (insert x.container h.next h.running) (h.next + 1) h.next x =
        (lookup-insert_self x.container h.next h.running, omega arith, low) in
      subst (λ k. Sound (insert x.container h.next h.running) (h.next + 1) k y)
        (eq_of_beq h.next other same)
        (let same_watcher : x ≡ y = cc in
          subst (Sound (insert x.container h.next h.running) (h.next + 1) h.next) same_watcher own)
  | inr d ↦
      let there = sym (lookup-insert h.next other x h.watchers ∙ rw d) ∙ g in
      let s = v other y there in
      (
        lookup-insert x.container y.container h.next h.running
            ∙ (rw (beq_of_ne x.container y.container (λ e. none_there other y there (sym e))))
            ∙ s.0,
        omega arith,
        s.2,
      )
]

pub cancel_old-cases :
    (h : Handler) (c : Bytes)
    → ((lookup c h.running ≡ none) × (cancel_old h c ≡ h))
      ⊎ ((w : ℕ) × (lookup c h.running ≡ some w) × (cancel_old h c ≡ cancel h w))
unfolding cancel_old
cancel_old-cases h c = elim (Option-cases (lookup c h.running)) [
  | inl g ↦ inl (g, rw (g, cancel_old) refl)
  | inr (w, g) ↦ inr (w, g, rw (g, cancel_old) refl)
]

cancelled-none :
    (h : Handler) (w : ℕ) (c : Bytes)
    → AllSound h
    → lookup c h.running ≡ some w
    → (other : ℕ) (y : Watcher) → lookup other (delete w h.watchers) ≡ some y
    → y.container ≢ c
cancelled-none h w c v named other y g here = elim (Bool-cases (w == other)) [
  | inl same ↦ ground (arith, lookup-delete w other h.watchers)
  | inr d ↦
      let there : lookup other h.watchers ≡ some y =
        sym (lookup-delete w other h.watchers ∙ rw d) ∙ g in
      let e : other ≡ w = only_named h w c v named other y there here in
      ground (arith, nat_beq_iff w other)
]

-- Then its container has no live watcher.
cancel_old-none :
    (h : Handler) (c : Bytes)
    → AllSound h
    → (other : ℕ) (y : Watcher) → lookup other (cancel_old h c).watchers ≡ some y
    → y.container ≢ c
cancel_old-none h c v other y g here = elim (cancel_old-cases h c) [
  | inl (n, e) ↦
      let s = v other y (rw e at g) in
      let named : lookup c h.running ≡ some other =
        subst (λ k. lookup k h.running ≡ some other) here s.0 in
      let no : none ≡ some other = sym n ∙ named in cc
  | inr (w, named, e) ↦
      let after : lookup other (delete w h.watchers) ≡ some y = unfold cancel in (rw e at g) in
      cancelled-none h w c v named other y after here
]

pub on_container_running-AllSound :
    (h : Handler) (c : Bytes) (capsule_id : String) (spec : CapsuleSpec)
    → AllSound h
    → AllSound (on_container_running h c capsule_id spec)
unfolding on_container_running
on_container_running-AllSound h c capsule_id spec v =
    let marked = effect h (mark_running capsule_id) in
    let marked_sound = effect-AllSound h (mark_running capsule_id) v in
    started-AllSound (cancel_old marked c) _ (omega arith) (cancel_old-none marked c marked_sound)
      (elim (cancel_old-cases marked c) [
        | inl (n, e) ↦ subst AllSound (sym e) marked_sound
        | inr (w, n, e) ↦ subst AllSound (sym e) (cancel-AllSound marked w marked_sound)
      ])
