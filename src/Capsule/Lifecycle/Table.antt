-- ===== src/Capsule/Lifecycle/Table.antt =====
-- Test data: the state machine library as the table that it is configured with.
use falak.Prelude.{refl, has}
use falak.Capsule.Lifecycle.{Engine}

abbrev pub table_engine : Engine
table_engine = record {
  fire_machine = λ p s t. p s t;
  can_fire_machine = λ p s t. has (p s t);
  fire_permitted = λ p s t d h. h;
  fire_refused = λ p s t h. h;
  can_fire_lem = λ p s t. refl;
}
