-- ===== src/Api/Reads.antt =====
-- Actions that only read: they throw or return and leave the state as it is.
use uza_mobility_bn.Base.{◌≡◌, ◌⊎◌}
use uza_mobility_bn.Api.{Action, ApiError, ok, err}

abbrev pub Reads : {S A : Type 0} → Action S A → S → Type 0
Reads {A} m s = ((e : ApiError) × (m s ≡ (err e, s))) ⊎ ((a : A) × (m s ≡ (ok a, s)))
