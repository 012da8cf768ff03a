-- ===== src/Transfers/Pending.antt =====
-- What is on its way to a location: the lines of transfers that are sent and not yet received.
use uinventario_api.Base.{
  ℕ, ◌+◌, ◌-◌, ◌≤◌, ◌≡◌, refl, Bool, true, false, ◌&&◌, ◌==◌, if◌then◌else◌, arith, leb, some, List,
  [], ◌∷◌, Bool-cases, inl, inr,
}
use uinventario_api.Transfers.{TransferLine, Transfer, find_transfer}
use uinventario_api.Transfers.Operations.{is_receivable, put_transfer}
use uinventario_api.Transfers.ReceiptLines.{ReceivedLine, find_line, add_received}

-- What of a line is neither received nor missed.
abbrev pub pending_of : TransferLine → ℕ
pending_of line = line.quantity - (line.received + line.discrepancy)

abbrev pub goes_to : ℕ → ℕ → TransferLine → Bool
goes_to product location line = line.product == product && line.destination == location

unfoldable pub pending_lines : ℕ → ℕ → List TransferLine → ℕ
pending_lines product location [] = 0
pending_lines product location (line ∷ rest) =
    let sum = pending_lines product location rest in
    if goes_to product location line then pending_of line + sum else sum

abbrev pub pending_in : ℕ → ℕ → Transfer → ℕ
pending_in product location t =
    if is_receivable t.status then pending_lines product location t.lines else 0

unfoldable pub pending : ℕ → ℕ → List Transfer → ℕ
pending product location [] = 0
pending product location (t ∷ rest) = pending_in product location t + pending product location rest

-- No line has more received and missed than was sent.
unfoldable pub are_within : List TransferLine → Bool
are_within [] = true
are_within (line ∷ rest) = leb (line.received + line.discrepancy) line.quantity && are_within rest

unfoldable pub all_within : List Transfer → Bool
all_within [] = true
all_within (t ∷ rest) = are_within t.lines && all_within rest

-- A transfer that is put in the place of one changes what is pending by its own part.
pub pending-put :
    (p l : ℕ) (new : Transfer) (ts : List Transfer) (t : Transfer)
    → find_transfer new.id ts ≡ some t
    → pending p l (put_transfer new ts) + pending_in p l t ≡ pending p l ts + pending_in p l new
unfolding pending find_transfer put_transfer
pending-put p l new [] t found = absurd (ground arith)
pending-put p l new (first ∷ rest) t found = elim (Bool-cases (first.id == new.id)) [
  | inl same ↦ let it : first ≡ t = ground arith in rw (same, it) (omega arith)
  | inr other ↦ let later = pending-put p l new rest t (ground arith) in rw other (omega arith)
]

pub all_within-find :
    (id : ℕ) (ts : List Transfer) (t : Transfer)
    → all_within ts ≡ true
    → find_transfer id ts ≡ some t
    → are_within t.lines ≡ true
unfolding all_within find_transfer
all_within-find id [] t h found = absurd (ground arith)
all_within-find id (first ∷ rest) t h found = elim (Bool-cases (first.id == id)) [
  | inl same ↦ let it : first ≡ t = ground arith in ground (arith, it)
  | inr other ↦ all_within-find id rest t (ground arith) (ground arith)
]

pub all_within-put :
    (new : Transfer) (ts : List Transfer)
    → all_within ts ≡ true
    → are_within new.lines ≡ true
    → all_within (put_transfer new ts) ≡ true
unfolding all_within put_transfer
all_within-put new [] h fine = refl
all_within-put new (first ∷ rest) h fine =
    let later = all_within-put new rest (ground arith) fine in ground (arith, later)

-- What was received leaves the pending quantities.
pub pending_lines-add :
    (p l : ℕ) (r : ReceivedLine) (lines : List TransferLine) (line : TransferLine)
    → find_line r.line lines ≡ some line
    → line.received + line.discrepancy + r.received + r.discrepancy ≤ line.quantity
    → pending_lines p l lines
      ≡ pending_lines p l (add_received r lines)
        + (if goes_to p l line then r.received + r.discrepancy else 0)
unfolding pending_lines find_line add_received
pending_lines-add p l r [] line found fits = absurd (ground arith)
pending_lines-add p l r (first ∷ rest) line found fits = elim (Bool-cases (first.id == r.line)) [
  | inl same ↦ let it : first ≡ line = ground arith in rw (same, it) (ground arith)
  | inr other ↦
      let later = pending_lines-add p l r rest line (ground arith) fits in
      rw other (ground (arith, later))
]

pub are_within-add :
    (r : ReceivedLine) (lines : List TransferLine) (line : TransferLine)
    → find_line r.line lines ≡ some line
    → line.received + line.discrepancy + r.received + r.discrepancy ≤ line.quantity
    → are_within lines ≡ true
    → are_within (add_received r lines) ≡ true
unfolding are_within find_line add_received
are_within-add r [] line found fits h = absurd (ground arith)
are_within-add r (first ∷ rest) line found fits h = elim (Bool-cases (first.id == r.line)) [
  | inl same ↦ let it : first ≡ line = ground arith in rw (same, it) (ground arith)
  | inr other ↦
      let later = are_within-add r rest line (ground arith) fits (ground arith) in
      rw (other, later) (ground arith)
]

-- Another line is found as before.
pub find_line-add :
    (r : ReceivedLine) (id : ℕ) (lines : List TransferLine)
    → r.line == id ≡ false
    → find_line id (add_received r lines) ≡ find_line id lines
unfolding find_line add_received
find_line-add r id [] apart = refl
find_line-add r id (first ∷ rest) apart =
    let later = find_line-add r id rest apart in ground (arith, later)
