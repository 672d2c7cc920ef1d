-- ===== src/Sales/Status.antt =====
-- The life cycles of a sale, a delivery note and a quotation: `_ALLOWED_TRANSITIONS` and
-- `can_transition_to` of apps/sales/domain/entities.py, delivery_note.py and sale_quotation.py.
use gs_erp.Base.{Bool, true, false, Result, guard, invalid_sale_transition}

pub data SaleStatus : Type 0 where
  draft confirmed posted delivered cancelled returned : SaleStatus

-- `target in _ALLOWED_TRANSITIONS.get(self, set())`
unfoldable pub can_transition_to : SaleStatus → SaleStatus → Bool
can_transition_to draft confirmed = true
can_transition_to draft cancelled = true
can_transition_to confirmed posted = true
can_transition_to confirmed cancelled = true
can_transition_to posted delivered = true
can_transition_to posted returned = true
can_transition_to delivered returned = true
can_transition_to _ _ = false

unfoldable pub assert_can_transition : SaleStatus → SaleStatus → Result (Unit {0})
assert_can_transition current target =
    guard (can_transition_to current target) invalid_sale_transition

pub data DeliveryStatus : Type 0 where
  draft dispatched delivered cancelled : DeliveryStatus

unfoldable pub delivery_can_transition_to : DeliveryStatus → DeliveryStatus → Bool
delivery_can_transition_to DeliveryStatus.draft DeliveryStatus.dispatched = true
delivery_can_transition_to DeliveryStatus.draft DeliveryStatus.cancelled = true
delivery_can_transition_to DeliveryStatus.dispatched DeliveryStatus.delivered = true
delivery_can_transition_to DeliveryStatus.dispatched DeliveryStatus.cancelled = true
delivery_can_transition_to _ _ = false

pub data QuotationStatus : Type 0 where
  draft sent accepted converted expired declined : QuotationStatus

unfoldable pub quotation_can_transition_to : QuotationStatus → QuotationStatus → Bool
quotation_can_transition_to QuotationStatus.draft QuotationStatus.sent = true
quotation_can_transition_to QuotationStatus.draft QuotationStatus.declined = true
quotation_can_transition_to QuotationStatus.sent QuotationStatus.accepted = true
quotation_can_transition_to QuotationStatus.sent QuotationStatus.declined = true
quotation_can_transition_to QuotationStatus.sent QuotationStatus.expired = true
quotation_can_transition_to QuotationStatus.accepted QuotationStatus.converted = true
quotation_can_transition_to _ _ = false
