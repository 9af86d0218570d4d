-- ===== src/Gravity/Calculator/Bounds.antt =====
-- The range of a score of election/gravity/gravity.go.
use falak.Prelude.{if◌then◌else◌}
use falak.Capsule.Store.{Capsule}
use falak.Gravity.Floats.{Floats, IsLawful}
use falak.Gravity.Calculator.{Calculator}

module _ {F : Type 0} (f : Floats F) (lawful : IsLawful f) where
  -- Cut off at 0, then at 1.
  abbrev low : F → F
  low x = if f.less x f.zero then f.zero else x

  abbrev unit : F → F
  unit x = if f.less f.one (low x) then f.one else low x
