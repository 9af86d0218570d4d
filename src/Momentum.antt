-- ===== src/Momentum.antt =====
-- capsule/momentum: the tracker of momentum.go and the adjuster of adjuster.go. Momenta are 32-bit
-- signed integers, whose sums wrap (`wrap_int32`); times are numbers of nanoseconds and `now` is an
-- argument. The map's order stands for the order in which Go ranges over it.
mod Bounds
mod Tests
use falak.Prelude.{
  ℕ, ◌-◌, ◌%◌, ◌^◌, Bool, true, false, not, List, [], ◌∷◌, Option, none, some, String, Map, lookup,
  insert, delete, string_eq, ltb, if◌then◌else◌,
}
use falak.Prelude.Int.{ℤ, pos, negsuc, ◌+ℤ◌, ◌-ℤ◌, eqb_ℤ, ltb_ℤ, sub_ℕ}
use falak.Capsule.Types.{Tier, base_momentum}
use falak.Capsule.Store.{MomentumState}
use falak.Spec.Records.{MomentumConfig}

-- The 32-bit integer of an exact sum.
unfoldable pub wrap_int32 : ℤ → ℤ
wrap_int32 (pos n) =
    if ltb (n % 2 ^ 32) (2 ^ 31) then pos (n % 2 ^ 32) else negsuc (2 ^ 32 - n % 2 ^ 32 - 1)
wrap_int32 (negsuc n) =
    if ltb (n % 2 ^ 32) (2 ^ 31) then negsuc (n % 2 ^ 32) else pos (2 ^ 32 - 1 - n % 2 ^ 32)

pub record Tracker : Type 0 where
  pub capsule_id : String
  pub state : MomentumState
  pub config : MomentumConfig
  pub min_momentum : ℤ
  pub max_momentum : ℤ
  pub boost_amount : ℤ
  pub reduce_amount : ℤ

pub new_tracker : MomentumConfig → ℕ → Tracker
new_tracker config now = record {
  capsule_id = "";
  state = record { current = config.base; base = config.base; last_adjusted = now };
  config = config;
  min_momentum = pos 0;
  max_momentum = pos 100;
  boost_amount = pos 5;
  reduce_amount = pos 5;
}

-- Five minutes.
pub new_tracker_from_tier : Tier → ℕ → Tracker
unfolding new_tracker
new_tracker_from_tier tier now =
    new_tracker
      (record {
        base = base_momentum tier;
        boost_on_traffic = true;
        reduce_on_idle = true;
        idle_timeout = pos 300000000000;
      })
      now

pub clamp : Tracker → ℤ → ℤ
clamp t value =
    if ltb_ℤ value t.min_momentum
    then t.min_momentum
    else if ltb_ℤ t.max_momentum value
    then t.max_momentum
    else value

abbrev pub with_current : Tracker → ℤ → ℕ → Tracker
with_current t value now = record t {
  state = record t.state { current = value; last_adjusted = now };
}

pub boost : Tracker → ℕ → Tracker × Bool
unfolding clamp wrap_int32
boost t now =
    let new = clamp t (wrap_int32 (t.state.current +ℤ t.boost_amount)) in
    if not t.config.boost_on_traffic
    then (t, false)
    else (with_current t new now, not (eqb_ℤ new t.state.current))

pub reduce : Tracker → ℕ → Tracker × Bool
unfolding clamp wrap_int32
reduce t now =
    let new = clamp t (wrap_int32 (t.state.current -ℤ t.reduce_amount)) in
    if not t.config.reduce_on_idle
    then (t, false)
    else (with_current t new now, not (eqb_ℤ new t.state.current))

pub set : Tracker → ℕ → ℤ → Tracker
unfolding clamp
set t now value = with_current t (clamp t value) now

pub reset : Tracker → ℕ → Tracker
reset t now = with_current t t.state.base now

pub is_idle : Tracker → ℕ → Bool
is_idle t now =
    if eqb_ℤ t.config.idle_timeout (pos 0)
    then false
    else ltb_ℤ t.config.idle_timeout (sub_ℕ now t.state.last_adjusted)

pub record AdjustmentEvent : Type 0 where
  pub id : String
  pub old_value : ℤ
  pub new_value : ℤ
  pub why : String
  pub timestamp : ℕ

pub record Adjuster : Type 0 where
  pub trackers : Map String Tracker
  pub events : List AdjustmentEvent

pub register : Adjuster → String → Tracker → Adjuster
register a id t = record a { trackers = insert id t a.trackers }

pub unregister : Adjuster → String → Adjuster
unregister a id = record a { trackers = delete id a.trackers }

-- The tracker after its call, and the event when its momentum changed.
pub adjusted : Adjuster → String → Tracker → Tracker × Bool → String → ℕ → Adjuster
adjusted a id old (t, changed) why now = record a {
  trackers = insert id t a.trackers;
  events =
      if changed
      then record {
        id = id;
        old_value = old.state.current;
        new_value = t.state.current;
        why = why;
        timestamp = now;
      }
        ∷ a.events
      else a.events;
}

pub on_traffic : Adjuster → String → ℕ → Adjuster
unfolding boost adjusted
on_traffic a id now = elim (lookup id a.trackers) [
  | none ↦ a
  | some t ↦ adjusted a id t (boost t now) "traffic_boost" now
]

pub on_failure : Adjuster → String → ℕ → Adjuster
unfolding reduce adjusted
on_failure a id now = elim (lookup id a.trackers) [
  | none ↦ a
  | some t ↦ adjusted a id t (reduce t now) "failure_reduce" now
]

-- The loop of `checkIdle` over its snapshot of the trackers.
pub check_each : Adjuster → Map String Tracker → ℕ → Adjuster
unfolding is_idle reduce adjusted
check_each a [] now = a
check_each a ((id, t) ∷ rest) now =
    check_each (if is_idle t now then adjusted a id t (reduce t now) "idle_reduce" now else a) rest
      now

pub check_idle : Adjuster → ℕ → Adjuster
unfolding check_each
check_idle a now = check_each a a.trackers now
