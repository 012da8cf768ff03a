-- ===== src/Transfers/Named.antt =====
-- The lines that a receipt names.
use uinventario_api.Base.{
  ℕ, ◌+◌, ◌≤◌, ◌<◌, ◌≡◌, refl, ◌∙◌, Bool, true, false, not, ◌&&◌, ◌||◌, ◌==◌, arith, some, List, [],
  ◌∷◌, ok, Result-cases, Option-cases, inl, inr,
}
use uinventario_api.Transfers.{TransferLine}
use uinventario_api.Transfers.ReceiptLines.{
  ReceivedLine, add_received, check_lines, find_line, has_line, are_distinct_lines,
}
use uinventario_api.Transfers.Pending.{find_line-add}

-- The lines that a receipt names are there, unchanged, and have room for it.
unfoldable pub AllFound : List (TransferLine × ReceivedLine) → List TransferLine → Type 0
AllFound [] lines = Unit {0}
AllFound ((line, r) ∷ rest) lines =
    (find_line r.line lines ≡ some line)
    × (line.received + line.discrepancy + r.received + r.discrepancy ≤ line.quantity)
    × (0 < r.received + r.discrepancy)
    × AllFound rest lines

unfoldable pub items_have : ℕ → List (TransferLine × ReceivedLine) → Bool
items_have id [] = false
items_have id ((_, r) ∷ rest) = r.line == id || items_have id rest

unfoldable pub items_distinct : List (TransferLine × ReceivedLine) → Bool
items_distinct [] = true
items_distinct ((_, r) ∷ rest) = not (items_have r.line rest) && items_distinct rest

pub AllFound-add :
    (r : ReceivedLine) (items : List (TransferLine × ReceivedLine)) (lines : List TransferLine)
    → items_have r.line items ≡ false
    → AllFound items lines
    → AllFound items (add_received r lines)
unfolding AllFound items_have
AllFound-add r [] lines apart h = tt
AllFound-add r ((line, next) ∷ rest) lines apart (found, fits, some_, later) = (
  find_line-add r next.line lines (ground arith) ∙ found,
  fits,
  some_,
  AllFound-add r rest lines (ground arith) later,
)

pub check_lines-AllFound :
    (lines : List TransferLine) (rs : List ReceivedLine)
    (items : List (TransferLine × ReceivedLine))
    → are_distinct_lines rs ≡ true
    → check_lines lines rs ≡ ok items
    → AllFound items lines
      × (items_distinct items ≡ true)
      × ((id : ℕ) → items_have id items ≡ has_line id rs)
unfolding AllFound items_have items_distinct check_lines are_distinct_lines has_line
check_lines-AllFound lines [] items d h =
    let same : [] ≡ items = ground arith in rw (← same) (tt, refl, λ id. refl)
check_lines-AllFound lines (r ∷ rest) items d h = elim (Option-cases (find_line r.line lines)) [
  | inl e ↦ absurd (ground arith)
  | inr (line, e) ↦ elim (Result-cases (check_lines lines rest)) [
    | inr (_, f) ↦ absurd (ground arith)
    | inl (later, f) ↦
        let (found, distinct, have) = check_lines-AllFound lines rest later (ground arith) f in
        let same : (line, r) ∷ later ≡ items = ground arith in
        let apart : items_have r.line later ≡ false = have r.line ∙ ground arith in
        rw (← same) (
          (e, ground arith, ground arith, found),
          rw (apart, distinct) refl,
          λ id. rw (have id) refl,
        )
  ]
]
