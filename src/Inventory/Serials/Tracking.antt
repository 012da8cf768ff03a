-- ===== src/Inventory/Serials/Tracking.antt =====
-- The registration and the moves of serials of src/inventory/inventory-serial-tracking.ts.
use uinventario_api.Base.{
  ℕ, Bool, true, false, not, ◌&&◌, ◌||◌, Option, none, some, List, [], ◌∷◌, ◌++◌, ltb, leb, ◌==◌,
  if◌then◌else◌, length, Result, ok, err, ◌>>=◌,
}
use uinventario_api.Base.Int.{pos, abs, ltb_ℤ}
use uinventario_api.Inventory.Serials.{
  Kind, Register, Rule, Serial, SerialError, SerialEvent, SerialMovement, SerialSources, Status,
  adjustment, available, check_serial, entry, import, initial, purchase_receipt, sale_void,
  serial_duplicate, serial_not_found, serial_required, transfer_discrepancy, transfer_in,
  transfer_receipt,
}

-- The query of `selectSerials`.
unfoldable pub find_serial : ℕ → List Serial → Option Serial
find_serial number [] = none
find_serial number (s ∷ rest) =
    let found = find_serial number rest in if s.number == number then some s else found

unfoldable pub update_serial : ℕ → Status → Option ℕ → List Serial → List Serial
update_serial number status location [] = []
update_serial number status location (s ∷ rest) =
    let updated = update_serial number status location rest in
    if s.number == number
    then record s { status = status; location = location } ∷ updated
    else s ∷ updated

-- `appendEvent`
unfoldable pub append_event : SerialMovement → Serial → Rule → Register → Register
append_event movement serial rule register = record {
  serials = update_serial serial.number rule.to_status rule.to_location register.serials;
  events =
      register.events
      ++ (record {
        movement = movement.id;
        serial = serial.number;
        from_status = some serial.status;
        to_status = rule.to_status;
        from_location = serial.location;
        to_location = rule.to_location;
      }
          ∷ []);
}

-- The rows are read, and so locked, in the order of the serials.
unfoldable pub insert_sorted : ℕ → List ℕ → List ℕ
insert_sorted n [] = n ∷ []
insert_sorted n (m ∷ ms) = if leb n m then n ∷ m ∷ ms else m ∷ insert_sorted n ms

unfoldable pub sort : List ℕ → List ℕ
sort [] = []
sort (n ∷ ns) = insert_sorted n (sort ns)

unfoldable pub select_serials : List ℕ → List Serial → Result SerialError (List Serial)
select_serials [] serials = ok []
select_serials (n ∷ ns) serials = elim (find_serial n serials) [
  | none ↦ err serial_not_found
  | some s ↦ (do rest ← select_serials ns serials; ok (s ∷ rest))
]

-- The loop over the selected rows.
unfoldable pub move_serials :
    SerialSources → SerialMovement → List Serial → Register → Result SerialError Register
move_serials sources movement [] register = ok register
move_serials sources movement (s ∷ rest) register = do
  rule ← check_serial sources movement s
  move_serials sources movement rest (append_event movement s rule register)

unfoldable pub member : ℕ → List ℕ → Bool
member n [] = false
member n (m ∷ ms) = m == n || member n ms

unfoldable pub has_duplicate : List ℕ → Bool
has_duplicate [] = false
has_duplicate (n ∷ ns) = member n ns || has_duplicate ns

abbrev values_or_none : Option (List ℕ) → List ℕ
values_or_none none = []
values_or_none (some numbers) = numbers

-- `requestedSerials`, of serials that are not empty and not too long.
unfoldable pub requested_serials : Option (List ℕ) → ℕ → Result SerialError (List ℕ)
requested_serials values count =
    let serials = values_or_none values in
    if ltb 1000 count || not (length serials == count) || has_duplicate serials
    then err serial_required
    else ok serials

-- The row and the event of a new serial.
abbrev pub entered : SerialMovement → ℕ → Register → Register
entered movement n register = record {
  serials =
      register.serials
      ++ (record { number = n; status = available; location = some movement.location } ∷ []);
  events =
      register.events
      ++ (record {
        movement = movement.id;
        serial = n;
        from_status = none;
        to_status = available;
        from_location = none;
        to_location = some movement.location;
      }
          ∷ []);
}

-- The loop of `registerSerials`, of serials that were checked before, for stock that enters as available.
unfoldable pub register_serials : SerialMovement → List ℕ → Register → Result SerialError Register
register_serials movement [] register = ok register
register_serials movement (n ∷ ns) register = elim (find_serial n register.serials) [
  | some _ ↦ err serial_duplicate
  | none ↦ register_serials movement ns (entered movement n register)
]

abbrev pub registers : Kind → Bool
registers initial = true
registers entry = true
registers purchase_receipt = true
registers import = true
registers adjustment = true
registers _ = false

unfoldable pub has_events : ℕ → List SerialEvent → Bool
has_events id [] = false
has_events id (e ∷ rest) = e.movement == id || has_events id rest

-- The serials that the movement is about: those of its source, or those that are given.
abbrev pub serials_of : SerialSources → Kind → Option (List ℕ) → Option (List ℕ)
serials_of sources sale_void given = some sources.of_sale
serials_of sources transfer_receipt none = some sources.of_transfer
serials_of sources transfer_discrepancy none = some sources.of_transfer
serials_of sources _ given = given

abbrev pub is_transfer_in : Kind → Bool
is_transfer_in transfer_in = true
is_transfer_in _ = false

abbrev pub count_of : SerialMovement → ℕ
count_of movement =
    if ltb 0 movement.state_quantity then movement.state_quantity else abs movement.quantity_change

-- `applyInventorySerialTracking`
unfoldable pub apply_serial_tracking :
    SerialSources → SerialMovement → Option (List ℕ) → Register → Result SerialError Register
apply_serial_tracking sources movement given register =
    if has_events movement.id register.events || is_transfer_in movement.kind
    then ok register
    else (do
      requested ← requested_serials (serials_of sources movement.kind given) (count_of movement)
      (if ltb_ℤ (pos 0) movement.quantity_change && registers movement.kind
          then register_serials movement requested register
          else (select_serials (sort requested) register.serials >>= λ rows.
              move_serials sources movement rows register)))
