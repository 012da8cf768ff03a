-- ===== src/Lib.antt =====
-- The business rules of UInventario's API: quantities, promotions, prices and payments of a sale, the
-- valuation of the inventory, the stock with its reservations and transfers, customer credit, and loyalty
-- points.
--
-- The source computes on decimal strings that it turns into scaled integers (bigint); here the integers
-- are natural numbers, or integers where the source allows a negative one: money in cents, quantities in
-- thousandths, costs and inventory values in ten-thousandths. They are unbounded, as a bigint is. A value
-- that is thrown is the error of a Result, and a transaction that throws leaves no state. A table is a
-- list of records, a query a filter, and a database transaction is one step, because the source locks the
-- rows that it reads. What comes from outside the repository is a parameter: the digest of SHA-256, the
-- clock, new identifiers (a counter) and the rows of tables that other parts write.
--
-- Base, Text and Decimal: lists, results, integers, strings as lists of character codes, and the codecs
--   between decimal strings and scaled integers of src/pos/pos.service.ts and
--   src/promotions/promotion-engine.service.ts. Printing a number has as fuel one more than the number,
--   which is more than its digits.
-- QuantityPolicy: src/common/quantity-policy.ts. quantity_to_units and quantity_from_units are the
--   codecs (Format), round_units the rounding (Rounding), assert_product_quantity_policy and
--   normalize_product_quantity the check and the normalisation (Normalize).
-- Promotions: src/promotions/promotion-engine.service.ts. resolve is PromotionEngineService.resolve; one
--   product's discounts are single_amount (Amounts), those of bundles bundle_allocations (Bundles), and
--   Exclusive follows which promotions may meet on a product.
-- Pos: src/pos/pos.service.ts. Discount is discountAmount, Allocation is allocateDiscount, Quote is the
--   computation of quoteCart from the prepared lines on, and Payments is preparePayments with
--   src/pos/payment-authorization.service.ts; Returns is the amounts and the allocations of a return, of
--   src/pos/sale-return.repository.ts. The quote uses the discounts that the promotion engine and
--   the request give, and the payments use the quote's total.
-- Inventory: Valuation is src/inventory/inventory-valuation.ts, which is run for each movement and then
--   runs the FIFO projection and the seal, with the guard of
--   src/inventory/inventory-reconciliation-guard.ts; Fifo is src/inventory/inventory-fifo-valuation.ts (Operations:
--   consumption and restoration of layers, Apply: transfers, the summary and the whole handler), and
--   Policy is src/inventory/inventory-valuation-policy.ts. Serials is
--   src/inventory/inventory-serial-tracking.ts, run for the same movements. The movements of a sale come from the lines of
--   the quote.
-- Stock: the balances, movements and counts of src/inventory/inventory.repository.ts. Movements is createMovement
--   and createStateTransition, Counts is createCount, Ledger says when books agree with their movements, and
--   Runs has the requests one after the other. A request under a known key is answered from its row.
-- Reservations: src/reservations/product-reservation.repository.ts, on the balances of Stock: create, and in
--   Closing close, release and expireDue. Held, Lines and Backing relate the reserved quantities to the
--   reservations; Due and Expiry follow the loop of expireDue; Runs has the requests one after the other, with
--   movements and counts of stock and transitions between its states by hand (createStateTransition) between
--   them.
-- Transfers: src/inventory/inventory-transfer.repository.ts, on the balances of Stock: create, dispatch (Operations),
--   receive (ReceiptLines, Receipts) and cancel. Pending is what is on its way; Dispatching, Receiving,
--   Moving, Arriving and Arrival relate it to the balances; Runs has the requests one after the other, with
--   movements and counts of stock and transitions between its states by hand between them.
-- Credit: src/pos/customer-credit-payment.repository.ts. Payments has create and reverse, Allocating the sums of a
--   payment's allocations, Settled and Recording what they do to the ledger, and Runs the requests.
-- Loyalty: src/loyalty/loyalty.repository.ts. Ledger has the entries and the allocations (insertDebit,
--   insertCredit, materializeExpirations), Sales has preview, applySale and compensateSale. Reversals has the
--   checks of voidSale (src/pos/sales.repository.ts) and of the creation of a return
--   (src/pos/sale-return.repository.ts) that decide whether compensateSale is reached, and Totals counts over
--   the reversals of a sale. What else may refuse a void or a return, stock, payments and the shift, is left out.
-- Examples modules hold tests and the theorems at concrete inputs.
--
-- Not modelled: merging and pricing of the cart, offline snapshots and fingerprints of a sale; the
-- serials, kits, balances and settlement of sale returns, the cash register, orders, procurement, lots and imports of stock; reports,
-- integrations, identity, notifications and the HTTP layer, which are queries and calls of outside
-- services. The valuation and the serials of a movement are modelled on their own tables, in Inventory;
-- for the requests of Stock, Reservations and Transfers they are a test, is_tracked, that accepts or
-- refuses a movement, and so are the lots.
pub mod Base
pub mod Text
pub mod Decimal
pub mod QuantityPolicy
pub mod Promotions
pub mod Pos
pub mod Inventory
pub mod Loyalty
pub mod Stock
pub mod Reservations
pub mod Transfers
pub mod Credit
