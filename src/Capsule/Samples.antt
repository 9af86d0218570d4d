-- ===== src/Capsule/Samples.antt =====
-- Test data: a capsule.
use falak.Prelude.{[]}
use falak.Prelude.Int.{pos}
use falak.Capsule.Types.{CapsuleStatus}
use falak.Capsule.Store.{Capsule}
use falak.Spec.Samples.{web_spec}

abbrev pub web_at : CapsuleStatus → Capsule
web_at s = record {
  id = "c1";
  cluster_id = "local";
  spec = web_spec;
  status = s;
  replicas = [];
  momentum = record { current = pos 90; base = pos 90; last_adjusted = 0 };
  version = "1";
  created_at = 0;
  updated_at = 0;
}
