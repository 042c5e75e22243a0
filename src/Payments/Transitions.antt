-- ===== src/Payments/Transitions.antt =====
-- src/modules/payments/payment-transitions.ts.
use uza_mobility_bn.Base.{Bool, List, [], ◌∷◌}
use uza_mobility_bn.Base.Text.{includes}
use uza_mobility_bn.Schema.Commerce.{PaymentStatus, payment_status_enum}

-- `PAYMENT_TRANSITIONS`
unfoldable pub payment_transitions : PaymentStatus → List PaymentStatus
payment_transitions PaymentStatus.submitted = PaymentStatus.under_verification ∷ []
payment_transitions PaymentStatus.under_verification =
    PaymentStatus.confirmed ∷ PaymentStatus.rejected ∷ []
payment_transitions PaymentStatus.confirmed = PaymentStatus.refunded ∷ []
payment_transitions PaymentStatus.rejected = []
payment_transitions PaymentStatus.refunded = []

unfoldable pub can_payment_transition : PaymentStatus → PaymentStatus → Bool
unfolding payment_transitions
can_payment_transition from to = includes (payment_transitions from) to
