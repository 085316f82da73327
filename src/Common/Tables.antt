-- ===== src/Common/Tables.antt =====
-- A table is a function from its keys. An update names its key by the test for it.
use mathlib.Core.Bool.{Bool}
use mathlib.Core.Option.{Option, none, some}
use obscura_proto.Common.Tests.{if◌then◌else◌}

unfoldable pub put {ℓ κ} :
    {K : Type ℓ} {V : Type κ} → (K → Bool) → V → (K → Option V) → K → Option V
put is_key v table k = if is_key k then some v else table k

unfoldable pub erase {ℓ κ} : {K : Type ℓ} {V : Type κ} → (K → Bool) → (K → Option V) → K → Option V
erase is_key table k = if is_key k then none else table k
