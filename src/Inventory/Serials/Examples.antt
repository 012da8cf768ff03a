-- ===== src/Inventory/Serials/Examples.antt =====
-- Tests of src/inventory/inventory-serial-tracking.ts, and its property at a concrete input.
use uinventario_api.Base.{ℕ, ◌≡◌, refl, true, false, none, some, [], ◌∷◌, ok, err}
use uinventario_api.Base.Int.{ℤ, pos, neg_ℕ}
use uinventario_api.Inventory.Serials.{
  Kind, entry, sale, customer_return, available, sold, SerialMovement, SerialEvent, Register,
  SerialSources, serial_state_conflict, rule_of, includes, check_serial,
}
use uinventario_api.Inventory.Serials.Tracking.{
  find_serial, update_serial, append_event, insert_sorted, sort, select_serials, move_serials,
  member, has_duplicate, requested_serials, register_serials, has_events, apply_serial_tracking,
}
use uinventario_api.Inventory.Serials.States.{apply_serial_tracking-IsReplay}
use uinventario_api.Inventory.Serials.Lookup.{IsReplay, last_state}

abbrev sources : SerialSources
sources = record {
  of_sale = 12 ∷ [];
  of_transfer = [];
  is_origin = λ _. true;
  return_line = none;
  destination = none;
}

abbrev a_movement : ℕ → Kind → ℤ → SerialMovement
a_movement id kind quantity = record {
  id = id;
  location = 1;
  kind = kind;
  quantity_change = quantity;
  state_quantity = 0;
  from_state = available;
  to_state = available;
  reserved = false;
}

abbrev empty : Register
empty = record { serials = []; events = [] }

abbrev entry_event : ℕ → SerialEvent
entry_event serial = record {
  movement = 5;
  serial = serial;
  from_status = none;
  to_status = available;
  from_location = none;
  to_location = some 1;
}

abbrev stocked : Register
stocked = record {
  serials =
      record { number = 12; status = available; location = some 1 }
      ∷ record { number = 11; status = available; location = some 1 }
      ∷ [];
  events = entry_event 12 ∷ entry_event 11 ∷ [];
}

abbrev after_sale : Register
after_sale = record {
  serials =
      record { number = 12; status = sold; location = none }
      ∷ record { number = 11; status = available; location = some 1 }
      ∷ [];
  events =
      entry_event 12
      ∷ entry_event 11
      ∷ record {
        movement = 6;
        serial = 12;
        from_status = some available;
        to_status = sold;
        from_location = some 1;
        to_location = none;
      }
      ∷ [];
}

enters :
    apply_serial_tracking sources (a_movement 5 entry (pos 2)) (some (12 ∷ 11 ∷ [])) empty
    ≡ ok stocked
unfolding apply_serial_tracking has_events requested_serials has_duplicate member register_serials
    find_serial
enters = refl

sells :
    apply_serial_tracking sources (a_movement 6 sale (neg_ℕ 1)) (some (12 ∷ [])) stocked
    ≡ ok after_sale
unfolding apply_serial_tracking has_events requested_serials has_duplicate member sort insert_sorted
    select_serials find_serial move_serials check_serial rule_of includes append_event update_serial
sells = refl

-- A sold serial has no location, so the return of it by a RETURN movement is refused.
returns :
    apply_serial_tracking sources (a_movement 7 customer_return (pos 1)) (some (12 ∷ [])) after_sale
    ≡ err serial_state_conflict
unfolding apply_serial_tracking has_events requested_serials has_duplicate member sort insert_sorted
    select_serials find_serial move_serials check_serial rule_of includes append_event update_serial
returns = refl

empty-IsReplay : IsReplay empty
unfolding find_serial last_state
empty-IsReplay number = refl

stocked-IsReplay : IsReplay stocked
stocked-IsReplay =
    apply_serial_tracking-IsReplay sources (a_movement 5 entry (pos 2)) (some (12 ∷ 11 ∷ [])) empty
      stocked empty-IsReplay enters

apply_serial_tracking-IsReplay_example : IsReplay after_sale
apply_serial_tracking-IsReplay_example =
    apply_serial_tracking-IsReplay sources (a_movement 6 sale (neg_ℕ 1)) (some (12 ∷ [])) stocked
      after_sale stocked-IsReplay sells
