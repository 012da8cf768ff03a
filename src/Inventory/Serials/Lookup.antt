-- ===== src/Inventory/Serials/Lookup.antt =====
-- The state of a serial in the table and in the log of events.
use uinventario_api.Base.{
  ℕ, ◌≡◌, refl, false, Option, none, some, List, [], ◌∷◌, ◌++◌, ◌==◌, if◌then◌else◌, arith,
  Bool-cases, inl, inr,
}
use uinventario_api.Inventory.Serials.{Status, Serial, SerialEvent, Register}
use uinventario_api.Inventory.Serials.Tracking.{find_serial, update_serial}

-- The state and the location of a serial of the table.
abbrev pub state_of : Option Serial → Option (Status × Option ℕ)
state_of none = none
state_of (some s) = some (s.status, s.location)

-- The state and the location that the last event of the serial gave it.
unfoldable pub last_state : ℕ → List SerialEvent → Option (Status × Option ℕ)
last_state number [] = none
last_state number (e ∷ rest) =
    let later = last_state number rest in
    elim later [
      | some state ↦ some state
      | none ↦ if e.serial == number then some (e.to_status, e.to_location) else none
    ]

-- Each serial is in the state that its last event gave it, and has events exactly if it is in the table.
abbrev pub IsReplay : Register → Type 0
IsReplay register =
    (number : ℕ)
    → state_of (find_serial number register.serials) ≡ last_state number register.events

pub last_state-append :
    (number : ℕ) (events : List SerialEvent) (e : SerialEvent)
    → last_state number (events ++ (e ∷ []))
      ≡ (if e.serial == number then some (e.to_status, e.to_location) else last_state number events)
unfolding last_state
last_state-append number [] e = refl
last_state-append number (x ∷ rest) e =
    let later = last_state-append number rest e in
    elim (Bool-cases (e.serial == number)) [
      | inl is ↦ let same = rw is at later in rw (is, same) refl
      | inr is ↦ let same = rw is at later in rw (is, same) refl
    ]

pub find_serial-append :
    (number : ℕ) (serials : List Serial) (s : Serial)
    → find_serial s.number serials ≡ none
    → find_serial number (serials ++ (s ∷ []))
      ≡ (if s.number == number then some s else find_serial number serials)
unfolding find_serial
find_serial-append number [] s h = refl
find_serial-append number (x ∷ rest) s h = elim (Bool-cases (x.number == s.number)) [
  | inl e ↦ absurd (ground arith)
  | inr e ↦
      let later = find_serial-append number rest s (ground arith) in
      elim (Bool-cases (x.number == number)) [
        | inr f ↦ rw f later
        | inl f ↦ let apart : (s.number == number) ≡ false = ground arith in rw (f, apart) refl
      ]
]

pub find_serial-update_other :
    (number n : ℕ) (status : Status) (location : Option ℕ) (serials : List Serial)
    → (n == number) ≡ false
    → find_serial number (update_serial n status location serials) ≡ find_serial number serials
unfolding find_serial update_serial
find_serial-update_other number n status location [] apart = refl
find_serial-update_other number n status location (x ∷ rest) apart =
    let later = find_serial-update_other number n status location rest apart in
    elim (Bool-cases (x.number == n)) [
      | inl e ↦ let far : (x.number == number) ≡ false = ground arith in rw (e, far) later
      | inr e ↦ rw (e, later) refl
    ]

pub find_serial-update_same :
    (n : ℕ) (status : Status) (location : Option ℕ) (serials : List Serial) (s : Serial)
    → find_serial n serials ≡ some s
    → state_of (find_serial n (update_serial n status location serials)) ≡ some (status, location)
unfolding find_serial update_serial
find_serial-update_same n status location [] s h = absurd (ground arith)
find_serial-update_same n status location (x ∷ rest) s h = elim (Bool-cases (x.number == n)) [
  | inl e ↦ rw (e, e) refl
  | inr e ↦ rw (e, e) (find_serial-update_same n status location rest s (ground arith))
]

pub find_serial-number :
    (n : ℕ) (serials : List Serial) (s : Serial) → find_serial n serials ≡ some s → s.number ≡ n
unfolding find_serial
find_serial-number n [] s h = absurd (ground arith)
find_serial-number n (x ∷ rest) s h = elim (Bool-cases (x.number == n)) [
  | inl e ↦ ground arith
  | inr e ↦ find_serial-number n rest s (ground arith)
]
