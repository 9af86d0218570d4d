-- ===== src/Capsule/Lifecycle/Trace.antt =====
-- What a run of capsule/lifecycle.go has been through.
use falak.Prelude.{
  ◌≤◌, ◌≡◌, refl, ◌∙◌, sym, ap, subst, true, List, [], ◌∷◌, ◌++◌, Option, none, some, arith, length,
  String,
}
use mathlib.Core.List.{append-nil}
use falak.Capsule.Types.{
  CapsuleStatus, created, announced, electing, assigned, executing, running, stopping, stopped,
  unknown, status_valid,
}
use falak.Capsule.Lifecycle.{
  Trigger, announce, election_started, election_won, election_timeout, execution_started,
  execution_failed, container_ready, stop_requested, container_stopped, node_failed,
  scale_up_needed, scale_down_needed, permits, Engine, Lifecycle, new_lifecycle, fire,
}
use falak.Capsule.Lifecycle.Transitions.{machine-fire, destination}

-- The triggers one after the other; a call that fails is passed over.
unfoldable pub run : Engine → Lifecycle → List Trigger → Lifecycle
run engine l [] = l
run engine l (t ∷ ts) = run engine (fire engine l t).0 ts

-- The first list is the second with some entries left out.
pub data Within {ℓ} {A : Type ℓ} : List A → List A → Type ℓ where
  done : Within [] []
  skip : {x : A} {xs ys : List A} → Within xs ys → Within xs (x ∷ ys)
  take_one : {x : A} {xs ys : List A} → Within xs ys → Within (x ∷ xs) (x ∷ ys)

Within-nil {ℓ} : {A : Type ℓ} (ys : List A) → Within [] ys
Within-nil [] = done
Within-nil (y ∷ ys) = skip (Within-nil ys)

Within-tail {ℓ} : {A : Type ℓ} {x : A} {xs ys : List A} → Within (x ∷ xs) ys → Within xs ys
Within-tail (skip w) = skip (Within-tail w)
Within-tail (take_one w) = skip w

-- The way from `created` to each state, the latest trigger first.
abbrev way : CapsuleStatus → List Trigger
way created = []
way announced = announce ∷ []
way electing = election_started ∷ announce ∷ []
way assigned = election_won ∷ election_started ∷ announce ∷ []
way executing = execution_started ∷ election_won ∷ election_started ∷ announce ∷ []
way running = container_ready ∷ execution_started ∷ election_won ∷ election_started ∷ announce ∷ []
way stopping = container_ready ∷ execution_started ∷ election_won ∷ election_started ∷ announce ∷ []
way stopped = container_ready ∷ execution_started ∷ election_won ∷ election_started ∷ announce ∷ []
way (unknown s) = []

ruleset shorten = (skip, take_one, Within-tail)

way-step :
    (s : CapsuleStatus) (t : Trigger) (h : List Trigger)
    → Within (way s) h
    → Within (way (elim (permits s t) [ none ↦ s | some d ↦ d ])) (t ∷ h)
unfolding permits
way-step created announce h w = take_one w
way-step announced election_started h w = take_one w
way-step electing election_won h w = take_one w
way-step electing election_timeout h w = skip (Within-tail w)
way-step assigned execution_started h w = take_one w
way-step assigned execution_failed h w = skip (Within-tail (Within-tail w))
way-step executing container_ready h w = take_one w
way-step executing execution_failed h w = skip (Within-tail (Within-tail (Within-tail w)))
way-step running stop_requested h w = skip w
way-step running node_failed h w = skip (Within-tail (Within-tail (Within-tail (Within-tail w))))
way-step running scale_up_needed h w =
    skip (Within-tail (Within-tail (Within-tail (Within-tail w))))
way-step running scale_down_needed h w = skip w
way-step stopping container_stopped h w = skip w
way-step stopped announce h w = take_one (Within-nil h)
way-step _ _ h w = skip w

-- The states alone.
abbrev moved : CapsuleStatus → Trigger → CapsuleStatus
moved s t = elim (permits s t) [ none ↦ s | some d ↦ d ]

abbrev states : CapsuleStatus → List Trigger → CapsuleStatus
states s [] = s
states s (t ∷ ts) = states (moved s t) ts

destination-moved :
    (engine : Engine) (l : Lifecycle) (t : Trigger) (o : Option CapsuleStatus)
    → destination engine l t o ≡ elim o [ none ↦ l.machine | some d ↦ d ]
destination-moved engine l t none = refl
destination-moved engine l t (some d) = refl

machine-run :
    (engine : Engine) (l : Lifecycle) (ts : List Trigger)
    → (run engine l ts).machine ≡ states l.machine ts
unfolding run
machine-run engine l [] = refl
machine-run engine l (t ∷ ts) =
    machine-run engine (fire engine l t).0 ts
    ∙ ap (λ s. states s ts)
        (machine-fire engine l t ∙ destination-moved engine l t (permits l.machine t))

-- The triggers so far, the latest first, before `h`.
abbrev trail : List Trigger → List Trigger → List Trigger
trail [] h = h
trail (t ∷ ts) h = trail ts (t ∷ h)

way-states :
    (s : CapsuleStatus) (ts h : List Trigger)
    → Within (way s) h
    → Within (way (states s ts)) (trail ts h)
way-states s [] h w = w
way-states s (t ∷ ts) h w = way-states (moved s t) ts (t ∷ h) (way-step s t h w)

Within-trail :
    {xs ys : List Trigger} (us vs : List Trigger)
    → Within xs ys
    → Within us vs
    → Within (trail xs us) (trail ys vs)
Within-trail us vs done w = w
Within-trail us vs (skip {x = t} v) w = Within-trail us (t ∷ vs) v (skip w)
Within-trail us vs (take_one {x = t} v) w = Within-trail (t ∷ us) (t ∷ vs) v (take_one w)

trail-trail : (ts h k : List Trigger) → trail (trail ts h) k ≡ trail h (ts ++ k)
trail-trail [] h k = refl
trail-trail (t ∷ ts) h k = trail-trail ts (t ∷ h) k

-- The way to `running`, first trigger first.
abbrev pub way_to_running : List Trigger
way_to_running =
    announce ∷ election_started ∷ election_won ∷ execution_started ∷ container_ready ∷ []

-- A new capsule that is running after some triggers, whatever they were and whichever of them
-- failed, has been announced, elected, assigned, started and found ready, in this order: these
-- five stand among the triggers in this order.
pub running_needs_way :
    (engine : Engine) (id : String) (ts : List Trigger)
    → (run engine (new_lifecycle id created) ts).machine ≡ running
    → Within way_to_running ts
unfolding new_lifecycle status_valid
running_needs_way engine id ts h =
    subst (Within way_to_running) (trail-trail ts [] [] ∙ append-nil ts) (
      Within-trail [] []
        (subst (λ s. Within (way s) (trail ts []))
          (sym (machine-run engine (new_lifecycle id created) ts) ∙ h)
          (way-states created ts [] done))
        done)

abbrev way_from_assigned : List Trigger
way_from_assigned = execution_started ∷ container_ready ∷ stop_requested ∷ container_stopped ∷ []

abbrev way_from_announced : List Trigger
way_from_announced = election_started ∷ election_won ∷ way_from_assigned

-- The triggers that bring a capsule from each state to a stop.
way_to_stop : CapsuleStatus → List Trigger
way_to_stop created = announce ∷ way_from_announced
way_to_stop announced = way_from_announced
way_to_stop electing = election_won ∷ way_from_assigned
way_to_stop assigned = way_from_assigned
way_to_stop executing = container_ready ∷ stop_requested ∷ container_stopped ∷ []
way_to_stop running = stop_requested ∷ container_stopped ∷ []
way_to_stop stopping = container_stopped ∷ []
way_to_stop stopped = []
way_to_stop (unknown s) = []

-- From every valid state at most seven triggers lead to `stopped`: no state is a dead end.
pub stopped_reachable :
    (engine : Engine) (l : Lifecycle)
    → status_valid l.machine ≡ true
    → (ts : List Trigger) × ((run engine l ts).machine ≡ stopped) × (length ts ≤ 7)
stopped_reachable engine l h = (
  way_to_stop l.machine,
  machine-run engine l (way_to_stop l.machine) ∙ stops l.machine h,
  short l.machine,
)
  where
    stops : (s : CapsuleStatus) → status_valid s ≡ true → states s (way_to_stop s) ≡ stopped
    stops created h = unfold permits way_to_stop in refl
    stops announced h = unfold permits way_to_stop in refl
    stops electing h = unfold permits way_to_stop in refl
    stops assigned h = unfold permits way_to_stop in refl
    stops executing h = unfold permits way_to_stop in refl
    stops running h = unfold permits way_to_stop in refl
    stops stopping h = unfold permits way_to_stop in refl
    stops stopped h = unfold permits way_to_stop in refl
    stops (unknown s) h = unfold status_valid in cc

    short : (s : CapsuleStatus) → length (way_to_stop s) ≤ 7
    short created = unfold way_to_stop in omega arith
    short (unknown s) = unfold way_to_stop in omega arith
    short _ = unfold way_to_stop in omega arith
