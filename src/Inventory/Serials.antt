-- ===== src/Inventory/Serials.antt =====
-- The states of serials: src/inventory/inventory-serial-tracking.ts, for one product of one tenant whose
-- serials are tracked. Serials are given trimmed and in upper case, as numbers, and quantities in whole
-- units; a duplicate key is the check of the table before the insertion.
pub mod Tracking
pub mod Lookup
pub mod States
mod Examples
use uinventario_api.Base.{
  ℕ, ◌+◌, ◌-◌, ◌≤◌, Bool, true, false, not, ◌&&◌, ◌||◌, Option, none, some, List, [], ◌∷◌, ◌++◌,
  ltb, leb, ◌==◌, if◌then◌else◌, length, Result, ok, err, ◌>>=◌, ◌>>◌, throw_if,
}
use uinventario_api.Base.Int.{ℤ, pos, abs, ltb_ℤ}

pub data SerialError : Type 0 where
  serial_required serial_duplicate serial_not_found serial_state_conflict : SerialError

pub data Status : Type 0 where
  available reserved sold in_transit damaged returned_to_supplier removed : Status

-- The movement types that the code distinguishes.
pub data Kind : Type 0 where
  initial entry purchase_receipt import adjustment sale sale_void customer_return sale_return : Kind
  transfer_in transfer_out transfer_receipt transfer_discrepancy supplier_return : Kind
  state_transition damage other : Kind

pub record Serial : Type 0 where
  pub number : ℕ
  pub status : Status
  pub location : Option ℕ

pub record SerialMovement : Type 0 where
  pub id : ℕ
  pub location : ℕ
  pub kind : Kind
  pub quantity_change : ℤ
  pub state_quantity : ℕ
  pub from_state : Status
  pub to_state : Status
  pub reserved : Bool

pub record SerialEvent : Type 0 where
  pub movement : ℕ
  pub serial : ℕ
  pub from_status : Option Status
  pub to_status : Status
  pub from_location : Option ℕ
  pub to_location : Option ℕ

pub record Register : Type 0 where
  pub serials : List Serial
  pub events : List SerialEvent

-- What other tables say: the serials of the sale or of the transfer that a movement comes from, whether a
-- serial came with the purchase that is returned, and the condition of a returned sale line (damaged).
pub record SerialSources : Type 0 where
  pub of_sale : List ℕ
  pub of_transfer : List ℕ
  pub is_origin : ℕ → Bool
  pub return_line : Option Bool
  pub destination : Option ℕ

abbrev pub status_index : Status → ℕ
status_index available = 0
status_index reserved = 1
status_index sold = 2
status_index in_transit = 3
status_index damaged = 4
status_index returned_to_supplier = 5
status_index removed = 6

abbrev pub is_status : Status → Status → Bool
is_status a b = status_index a == status_index b

-- What the `switch` of the movement's type decides: the allowed states, the new state and location.
pub record Rule : Type 0 where
  pub allowed : List Status
  pub to_status : Status
  pub to_location : Option ℕ

unfoldable pub rule_of : SerialSources → SerialMovement → Result SerialError Rule
rule_of sources movement =
    let here = some movement.location in
    elim movement.kind [
      | sale ↦ ok (record {
        allowed = (if movement.reserved then reserved else available) ∷ [];
        to_status = sold;
        to_location = none;
      })
      | sale_void ↦
          ok (record { allowed = sold ∷ removed ∷ []; to_status = available; to_location = here })
      | customer_return ↦
          ok (record { allowed = sold ∷ removed ∷ []; to_status = available; to_location = here })
      | sale_return ↦ (elim sources.return_line [
        | none ↦ err serial_state_conflict
        | some is_damaged ↦ ok (record {
          allowed = sold ∷ [];
          to_status = if is_damaged then damaged else available;
          to_location = here;
        })
      ])
      | transfer_out ↦ ok (record {
        allowed = available ∷ [];
        to_status = in_transit;
        to_location = sources.destination;
      })
      | transfer_receipt ↦
          ok (record { allowed = in_transit ∷ []; to_status = available; to_location = here })
      | transfer_discrepancy ↦
          ok (record { allowed = in_transit ∷ []; to_status = removed; to_location = none })
      | supplier_return ↦ ok (record {
        allowed = available ∷ [];
        to_status = returned_to_supplier;
        to_location = none;
      })
      | state_transition ↦ ok (record {
        allowed = movement.from_state ∷ [];
        to_status = movement.to_state;
        to_location = here;
      })
      | damage ↦ ok (record { allowed = available ∷ []; to_status = damaged; to_location = here })
      | _ ↦ ok (record { allowed = available ∷ []; to_status = removed; to_location = none })
    ]

unfoldable pub includes : List Status → Status → Bool
includes [] status = false
includes (s ∷ rest) status = is_status s status || includes rest status

abbrev pub is_at : Option ℕ → ℕ → Bool
is_at none location = false
is_at (some l) location = l == location

abbrev pub comes_from_customer : Kind → Bool
comes_from_customer sale_void = true
comes_from_customer sale_return = true
comes_from_customer _ = false

abbrev pub is_supplier_return : Kind → Bool
is_supplier_return supplier_return = true
is_supplier_return _ = false

-- The body of the loop up to `appendEvent`.
unfoldable pub check_serial : SerialSources → SerialMovement → Serial → Result SerialError Rule
check_serial sources movement serial = do
  throw_if (is_supplier_return movement.kind && not (sources.is_origin serial.number))
      serial_state_conflict
  rule ← rule_of sources movement
  throw_if
      (not (includes rule.allowed serial.status)
        || (not (is_at serial.location movement.location)
            && not (comes_from_customer movement.kind)))
      serial_state_conflict
  ok rule
