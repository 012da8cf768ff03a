-- ===== src/Inventory/Examples.antt =====
-- Tests of the inventory valuation of src/inventory, and its properties at concrete inputs.
use uinventario_api.Base.{
  ◌+◌, ◌*◌, arith, ℕ, ◌≡◌, ◌↔◌, ◌≤◌, ◌<◌, refl, true, List, [], ◌∷◌, none, some, ok, err, All,
}
use uinventario_api.Base.Int.{ℤ, pos, negsuc, abs, with_sign, is_neg, neg_ℕ, ◌+ℤ◌, ◌-ℤ◌}
use uinventario_api.Inventory.Rounding.{
  quantity_value, rounded_quotient, divide_rounded, invalid_divisor, divide_rounded_nearest,
}
use uinventario_api.Inventory.Fifo.{
  layer_shortage, sale, purchase_receipt, MovementType, Movement, Layer, Allocation, Store, Sources,
  from_receipt, fifo, insert_allocation,
}
use uinventario_api.Inventory.Fifo.Operations.{
  any_layer, is_eligible, push_layer, consume_from, consume_layers,
}
use uinventario_api.Inventory.Fifo.Apply.{
  total_quantity, total_value, update_movement_summary, is_projected, apply_decrease, apply_change,
  apply_fifo_valuation,
}
use uinventario_api.Inventory.Fifo.Conservation.{
  IsStored, IsInOrder, eligible_total, consume_layers-total, consume_layers_iff,
}
use uinventario_api.Inventory.Fifo.Balance.{apply_fifo_valuation-balance}
use uinventario_api.Inventory.Valuation.{
  Valuation, negative_value, CostSources, Valued, apply_valuation, resolve_source_cost, found,
  receipt_cost_of, new_value, new_average, catalog_cost, assert_operational, reconciliation_blocked,
}
use uinventario_api.Inventory.Policy.{Policy, specific_lot, SealedMovement, Lots}

abbrev a_movement : ℕ → MovementType → ℤ → Movement
a_movement id kind quantity = record {
  id = id;
  location = 1;
  kind = kind;
  quantity_change = quantity;
  receipt_line = some 70;
  return_line = none;
  sale = some 80;
  sale_line = some 81;
  source_sale_movement = none;
  transfer_line = none;
  unit_cost = none;
  currency = 1;
  created_at = 30;
}

abbrev a_layer : ℕ → ℕ → ℕ → Layer
a_layer id remaining unit_cost = record {
  id = id;
  location = 1;
  source_movement = id;
  source_layer = none;
  receipt_line = none;
  origin = from_receipt;
  original = 5000;
  remaining = remaining;
  unit_cost = unit_cost;
  currency = 1;
  acquired_at = id;
}

abbrev sold : Movement
sold = a_movement 9 sale (neg_ℕ 4500)

abbrev stock : Store
stock = record {
  layers = a_layer 1 2000 10000 ∷ a_layer 2 5000 12000 ∷ [];
  allocations = [];
  movements = sold ∷ [];
  summaries = [];
  cutover = some 1;
  next_id = 100;
}

-- 2.000 at 1.00 and 2.500 at 1.20.
abbrev sale_allocations : List Allocation
sale_allocations =
    record {
      id = 100;
      movement = 9;
      layer = 1;
      source = none;
      quantity_change = neg_ℕ 2000;
      unit_cost = 10000;
      currency = 1;
      value_change = neg_ℕ 20000;
      mode = fifo;
    }
    ∷ record {
      id = 101;
      movement = 9;
      layer = 2;
      source = none;
      quantity_change = neg_ℕ 2500;
      unit_cost = 12000;
      currency = 1;
      value_change = neg_ℕ 30000;
      mode = fifo;
    }
    ∷ []

abbrev consumed : Store
consumed = record stock {
  layers = a_layer 1 0 10000 ∷ a_layer 2 2500 12000 ∷ [];
  allocations = sale_allocations;
  next_id = 102;
}

abbrev after_sale : Store
after_sale = record consumed {
  summaries =
      record {
        movement = 9;
        unit_cost = 11111;
        value_change = neg_ℕ 50000;
        inventory_value = 30000000;
      }
      ∷ [];
}

abbrev sources : Sources
sources = record {
  receipt_cost = λ _. some (10000, 1);
  return_receipt = λ _. none;
  valuation = some (pos 2500);
}

stored : All IsStored stock.layers
stored = (omega arith, (omega arith, tt))

consumes : consume_layers sold 4500 any_layer stock ≡ ok (consumed, neg_ℕ 50000)
unfolding consume_layers consume_from push_layer is_eligible insert_allocation quantity_value
    rounded_quotient ◌+ℤ◌
consumes = refl

too_much : consume_layers sold 7001 any_layer stock ≡ err layer_shortage
unfolding consume_layers consume_from push_layer is_eligible insert_allocation quantity_value
    rounded_quotient ◌+ℤ◌
too_much = refl

applies : apply_fifo_valuation sources sold stock ≡ ok after_sale
unfolding apply_fifo_valuation apply_change apply_decrease consume_layers consume_from push_layer
    is_eligible insert_allocation quantity_value rounded_quotient ◌+ℤ◌ is_projected
    update_movement_summary total_quantity total_value
applies = refl

apply_fifo_valuation-balance_example :
    (pos (total_quantity after_sale.layers) ≡ pos (total_quantity stock.layers) +ℤ neg_ℕ 4500)
    × (some (pos 2500) ≡ some (pos (total_quantity after_sale.layers)))
    × All IsStored after_sale.layers
unfolding is_projected
apply_fifo_valuation-balance_example =
    apply_fifo_valuation-balance sources sold stock after_sale stored refl applies

consume_layers-total_example :
    (total_quantity consumed.layers + 4500 ≡ total_quantity stock.layers)
    × IsInOrder (is_eligible sold any_layer stock.movements) stock.layers consumed.layers
    × All IsStored consumed.layers
consume_layers-total_example =
    consume_layers-total sold 4500 any_layer stock consumed (neg_ℕ 50000) stored consumes

consume_layers_iff_example :
    (((out : Store × ℤ) × (consume_layers sold 4500 any_layer stock ≡ ok out))
      ↔ (4500 ≤ eligible_total (is_eligible sold any_layer stock.movements) stock.layers))
consume_layers_iff_example = consume_layers_iff sold 4500 any_layer stock

abbrev received : Movement
received = a_movement 8 purchase_receipt (pos 1000)

abbrev valuation : Valuation
valuation = record {
  quantity = 2000;
  inventory_value = 20000;
  average_unit_cost = 10000;
  version = 3;
}

abbrev costs : CostSources
costs = record { guard = none; receipt_cost = λ _. some 11000; movements = [] }

abbrev valued : Valued
valued = record {
  valuation = record {
    quantity = 3000;
    inventory_value = 31000;
    average_unit_cost = 10333;
    version = 4;
  };
  unit_cost = 11000;
  value_change = pos 11000;
  cost = some 10300;
}

divide_rounded_nearest_example :
    (r : ℤ) × (divide_rounded (negsuc 4) (pos 10) ≡ ok r)
    × (r ≡ with_sign (is_neg (negsuc 4)) (abs r))
    × (2 * 10 * abs r ≤ 2 * 5 + 10)
    × (2 * 5 < 2 * 10 * abs r + 10)
divide_rounded_nearest_example = divide_rounded_nearest (negsuc 4) 10 (omega arith)

-- A tie goes away from zero, and there is no division by zero.
ties :
    (divide_rounded (negsuc 4) (pos 10) ≡ ok (negsuc 0))
    × (divide_rounded (pos 5) (pos 10) ≡ ok (pos 1))
    × (divide_rounded (pos 5) (pos 0) ≡ err invalid_divisor)
unfolding divide_rounded rounded_quotient
ties = (refl, refl, refl)

-- Critical findings block every movement of the tenant.
blocked :
    apply_valuation
      (record costs { guard = some (record { latest_run = 77; operations_blocked = true }) })
      received
      valuation
    ≡ err (reconciliation_blocked 77)
unfolding apply_valuation assert_operational
blocked = refl

abbrev lot_policy : Policy
lot_policy = record { method = specific_lot; version = 2; effective_at = 1 }

abbrev lots : Lots
lots = record {
  tracked = true;
  allocations =
      record { quantity_change = neg_ℕ 1500; value_change = neg_ℕ 15000 }
      ∷ record { quantity_change = neg_ℕ 500; value_change = neg_ℕ 6000 }
      ∷ [];
  balances = record { quantity = 3000; unit_cost = 10000 } ∷ [];
  valuation = some (pos 3000);
}

abbrev before_lots : SealedMovement
before_lots = record {
  quantity_change = neg_ℕ 2000;
  costs = record { unit_cost = 0; value_change = pos 0; inventory_value = 0 };
  fifo_costs = none;
  sealed_by = some lot_policy;
}

abbrev after_lots : SealedMovement
after_lots = record before_lots {
  costs = record { unit_cost = 10500; value_change = neg_ℕ 21000; inventory_value = 30000000 };
}

abbrev before_seal : SealedMovement
before_seal = record before_lots { sealed_by = none }

-- The rounded average is above the exact one, so a sale that leaves one piece is refused.
value_drifts :
    apply_valuation costs (a_movement 10 sale (neg_ℕ 59999000)) (record {
      quantity = 60000000;
      inventory_value = 600040000;
      average_unit_cost = 10001;
      version = 3;
    })
    ≡ err negative_value
unfolding apply_valuation assert_operational resolve_source_cost found receipt_cost_of new_value
    new_average catalog_cost quantity_value rounded_quotient ◌+ℤ◌ ◌-ℤ◌
value_drifts = refl
