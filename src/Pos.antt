-- ===== src/Pos.antt =====
-- The point of sale: src/pos/pos.service.ts. A cart is quoted and its payments are checked in integer
-- cents and thousandths.
mod Examples
pub mod Quote
pub mod Payments
pub mod Discount
pub mod Allocation
pub mod Returns
use uinventario_api.Base.{ℕ}

-- The exceptions of the quote and of the payments, by their codes; `range_error` is that of a
-- BigInt division by zero.
pub data PosError : Type 0 where
  sale_discount_reason_required sale_discount_limit_exceeded range_error : PosError
  invalid_cart_quantity mixed_product_lots mixed_expired_lot_reasons : PosError
  mixed_product_discounts mixed_product_line_controls : PosError
  product_not_found kit_tracking_not_supported untracked_controls_not_supported : PosError
  insufficient_stock : ℕ → PosError
  payment_configuration_invalid payment_amount_invalid payment_fields_invalid : PosError
  cash_received_required payment_reference_required insufficient_cash_received : PosError
  payment_total_mismatch payment_method_unavailable payment_declined : PosError
