-- ===== src/Base/Maps.antt =====
-- Go maps with text keys, as functions: reading a missing key gives the default of `empty_map`.
use Prim.Native.String.{String}
use mathlib.Core.Path.{◌≡◌}
use mathlib.Core.Logic.{◌≢◌}
use vaultd.Base.Tests.{◌=s=◌, if◌then◌else◌, =s=_self, =s=_ne}

module _ {ℓ} {V : Type ℓ} where
  abbrev pub empty_map : V → String → V
  empty_map d k = d

  -- `m[k] = v`.
  abbrev pub assign : (String → V) → String → V → String → V
  assign m k v j = if j =s= k then v else m j

  pub assign_self : (m : String → V) (k : String) (v : V) → assign m k v k ≡ v
  assign_self m k v = rw (=s=_self k)

  pub assign_other : (m : String → V) (k j : String) (v : V) → j ≢ k → assign m k v j ≡ m j
  assign_other m k j v h = rw (=s=_ne j k h)
