-- ===== src/Inventory/Serials/States.antt =====
-- The table of serials is what the events say.
use uinventario_api.Base.{
  ℕ, ◌≡◌, sym, ap, ◌∙◌, ◌&&◌, ◌||◌, Option, none, some, List, [], ◌∷◌, ◌==◌, arith, All, ok,
  Result-cases, Option-cases, Bool-cases, inl, inr,
}
use uinventario_api.Base.Int.{pos, ltb_ℤ}
use uinventario_api.Inventory.Serials.{
  available, Serial, SerialMovement, SerialEvent, Register, SerialSources, Rule, check_serial,
}
use uinventario_api.Inventory.Serials.Tracking.{
  entered, count_of, registers, find_serial, update_serial, append_event, select_serials,
  move_serials, register_serials, requested_serials, serials_of, has_events, is_transfer_in, sort,
  apply_serial_tracking,
}
use uinventario_api.Inventory.Serials.Lookup.{
  state_of, IsReplay, last_state-append, find_serial-append, find_serial-update_other,
  find_serial-update_same, find_serial-number,
}

-- The serial is in the table.
abbrev IsKnown : Register → Serial → Type 0
IsKnown register s = (t : Serial) × (find_serial s.number register.serials ≡ some t)

append_event-IsReplay :
    (movement : SerialMovement) (s : Serial) (rule : Rule) (register : Register)
    → IsKnown register s
    → IsReplay register
    → IsReplay (append_event movement s rule register)
unfolding append_event
append_event-IsReplay movement s rule register (t, known) h number =
    let e : SerialEvent = record {
      movement = movement.id;
      serial = s.number;
      from_status = some s.status;
      to_status = rule.to_status;
      from_location = s.location;
      to_location = rule.to_location;
    } in
    let last = last_state-append number register.events e in
    elim (Bool-cases (s.number == number)) [
      | inl is ↦
          let same : number ≡ s.number = ground arith in
          let told = rw is at last in
          let updated = update_serial s.number rule.to_status rule.to_location register.serials in
          ap (λ k. state_of (find_serial k updated)) same
          ∙ find_serial-update_same s.number rule.to_status rule.to_location register.serials t
              known
          ∙ sym told
      | inr is ↦
          let told = rw is at last in
          ap state_of (
            find_serial-update_other number s.number rule.to_status rule.to_location
              register.serials is)
          ∙ h number
          ∙ sym told
    ]

append_event-IsKnown :
    (movement : SerialMovement) (s : Serial) (rule : Rule) (register : Register) (other : Serial)
    → IsKnown register s
    → IsKnown register other
    → IsKnown (append_event movement s rule register) other
unfolding append_event
append_event-IsKnown movement s rule register other (t, known) (u, found) =
    elim (Bool-cases (s.number == other.number)) [
      | inr is ↦ (
        u,
        find_serial-update_other other.number s.number rule.to_status rule.to_location
              register.serials is
            ∙ found,
      )
      | inl is ↦
          let same : other.number ≡ s.number = ground arith in
          let updated = update_serial s.number rule.to_status rule.to_location register.serials in
          let kept =
            find_serial-update_same s.number rule.to_status rule.to_location register.serials t
              known in
          elim (Option-cases (find_serial s.number updated)) [
            | inr (w, e) ↦ (w, ap (λ k. find_serial k updated) same ∙ e)
            | inl e ↦ absurd (ground (arith, sym (ap state_of e) ∙ kept))
          ]
    ]

append_event-AllKnown :
    (movement : SerialMovement) (s : Serial) (rule : Rule) (register : Register)
    (rows : List Serial)
    → IsKnown register s
    → All (IsKnown register) rows
    → All (IsKnown (append_event movement s rule register)) rows
append_event-AllKnown movement s rule register [] k h = tt
append_event-AllKnown movement s rule register (r ∷ rows) k (h, hs) = (
  append_event-IsKnown movement s rule register r k h,
  append_event-AllKnown movement s rule register rows k hs,
)

move_serials-IsReplay :
    (sources : SerialSources) (movement : SerialMovement) (rows : List Serial)
    (register after : Register)
    → move_serials sources movement rows register ≡ ok after
    → All (IsKnown register) rows
    → IsReplay register
    → IsReplay after
unfolding move_serials
move_serials-IsReplay sources movement [] register after h k replay =
    let same : register ≡ after = ground arith in rw same at replay
move_serials-IsReplay sources movement (s ∷ rows) register after h (k, ks) replay =
    elim (Result-cases (check_serial sources movement s)) [
      | inr (_, e) ↦ absurd (ground arith)
      | inl (rule, e) ↦
          move_serials-IsReplay sources movement rows (append_event movement s rule register) after
            (ground arith) (append_event-AllKnown movement s rule register rows k ks)
            (append_event-IsReplay movement s rule register k replay)
    ]

select_serials-AllKnown :
    (numbers : List ℕ) (register : Register) (rows : List Serial)
    → select_serials numbers register.serials ≡ ok rows
    → All (IsKnown register) rows
unfolding select_serials
select_serials-AllKnown [] register rows h = let same : [] ≡ rows = ground arith in rw (← same) tt
select_serials-AllKnown (n ∷ ns) register rows h =
    elim (Option-cases (find_serial n register.serials)) [
      | inl e ↦ absurd (ground arith)
      | inr (s, e) ↦ elim (Result-cases (select_serials ns register.serials)) [
        | inr (_, f) ↦ absurd (ground arith)
        | inl (rest, f) ↦
            let same : rows ≡ s ∷ rest = ground arith in
            let number = find_serial-number n register.serials s e in
            rw same (
              (s, ap (λ k. find_serial k register.serials) number ∙ e),
              select_serials-AllKnown ns register rest f,
            )
      ]
    ]

entered-IsReplay :
    (movement : SerialMovement) (n : ℕ) (register : Register)
    → find_serial n register.serials ≡ none
    → IsReplay register
    → IsReplay (entered movement n register)
entered-IsReplay movement n register fresh h number =
    let s : Serial = record { number = n; status = available; location = some movement.location } in
    let e : SerialEvent = record {
      movement = movement.id;
      serial = n;
      from_status = none;
      to_status = available;
      from_location = none;
      to_location = some movement.location;
    } in
    let stored = find_serial-append number register.serials s fresh in
    let last = last_state-append number register.events e in
    elim (Bool-cases (n == number)) [
      | inl is ↦ ap state_of (rw is at stored) ∙ sym (rw is at last)
      | inr is ↦ ap state_of (rw is at stored) ∙ h number ∙ sym (rw is at last)
    ]

register_serials-IsReplay :
    (movement : SerialMovement) (numbers : List ℕ) (register after : Register)
    → register_serials movement numbers register ≡ ok after
    → IsReplay register
    → IsReplay after
unfolding register_serials
register_serials-IsReplay movement [] register after h replay =
    let same : register ≡ after = ground arith in rw same at replay
register_serials-IsReplay movement (n ∷ ns) register after h replay =
    elim (Option-cases (find_serial n register.serials)) [
      | inr (_, e) ↦ absurd (ground arith)
      | inl e ↦
          register_serials-IsReplay movement ns (entered movement n register) after (ground arith)
            (entered-IsReplay movement n register e replay)
    ]

-- Whatever a movement does, registered, moved or already applied: if each serial was in the state and at
-- the place that its last event says, and only serials with events were in the table, it is so afterwards.
pub apply_serial_tracking-IsReplay :
    (sources : SerialSources) (movement : SerialMovement) (given : Option (List ℕ))
    (register after : Register)
    → IsReplay register
    → apply_serial_tracking sources movement given register ≡ ok after
    → IsReplay after
unfolding apply_serial_tracking
apply_serial_tracking-IsReplay sources movement given register after replay h =
    elim (Bool-cases (has_events movement.id register.events || is_transfer_in movement.kind)) [
      | inl e ↦ let same : register ≡ after = ground arith in rw same at replay
      | inr e ↦
          let count = count_of movement in
          elim (Result-cases (requested_serials (serials_of sources movement.kind given) count)) [
            | inr (_, f) ↦ absurd (ground arith)
            | inl (requested, f) ↦
                elim (Bool-cases
                  (ltb_ℤ (pos 0) movement.quantity_change && registers movement.kind)) [
                    | inl g ↦
                        register_serials-IsReplay movement requested register after (ground arith)
                          replay
                    | inr g ↦
                        elim (Result-cases (select_serials (sort requested) register.serials)) [
                          | inr (_, k) ↦ absurd (ground arith)
                          | inl (rows, k) ↦
                              move_serials-IsReplay sources movement rows register after
                                (ground arith)
                                (select_serials-AllKnown (sort requested) register rows k) replay
                        ]
                  ]
          ]
    ]
