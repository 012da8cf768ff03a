-- ===== src/Reservations/Expiry.antt =====
-- The loop of `expireDue`: every reservation of the branch that is due is closed.
use uinventario_api.Stock.{Books, StockMovement}
use uinventario_api.Base.{
  if◌then◌else◌, err, Bool, ℕ, ◌≡◌, refl, ◌∙◌, true, false, not, ◌&&◌, ◌==◌, arith, Option, none,
  some, List, [], ◌∷◌, ◌++◌, Result, ok, Option-cases, Bool-cases, inl, inr,
}
use uinventario_api.Reservations.{
  MovementNames, idempotency_conflict, target_not_found, duplicate_row, tracking_refused,
  insufficient_stock, not_active, Reservation, ReservationStatus, ReservationError, Shelves,
  is_active, find_by_id,
}
use uinventario_api.Reservations.Closing.{
  Closure, update_row, closed_row, close, close_found, is_due, due, expiry, expired_then,
  expire_all, expire_due, is_closed_by, status_index,
}
use uinventario_api.Reservations.Backing.{IsBacked, IsBackedBy, close-IsBacked, close-total}
use uinventario_api.Reservations.Due.{
  row_facts, is_open, contains, all_of_branch, update-row_facts, update-is_open,
  all_of_branch-update, contains-due, all_of_branch-due, due-empty,
}

-- What a turn of the loop leaves: an answer, and the listed rows closed.
pub record IsExpired (listed : List Reservation) (before : Shelves)
    (result : Shelves × Result ReservationError (List Reservation)) : Type 0 where
  pub closed : List Reservation
  pub answered : result.1 ≡ ok closed
  pub backed : IsBacked result.0
  pub facts :
      (id : ℕ)
      → row_facts (find_by_id id result.0.reservations)
        ≡ row_facts (find_by_id id before.reservations)
  pub opened :
      (id : ℕ)
      → is_open (find_by_id id result.0.reservations)
        ≡ (is_open (find_by_id id before.reservations) && not (contains id listed))

still_closed :
    (id : ℕ) (r found : Reservation) (rest rs : List Reservation)
    → find_by_id r.id rs ≡ some found
    → is_active found.status ≡ false
    → (is_open (find_by_id id rs) && not (contains id rest))
      ≡ (is_open (find_by_id id rs) && not (contains id (r ∷ rest)))
unfolding contains
still_closed id r found rest rs e closed = elim (Bool-cases (r.id == id)) [
  | inl same ↦ let it : r.id ≡ id = ground arith in let here = rw it at e in rw (here, closed) refl
  | inr other ↦ rw other refl
]

module _ (key : MovementNames) (expire_key : ℕ → ℕ) (digest : ReservationStatus → ℕ → ℕ)
    (reason branch : ℕ) where
  -- A closed row does not change, and the loop goes on.
  closed-turn :
      (r found : Reservation) (shelves : Shelves) (done : List Reservation)
      (next : Shelves → List Reservation → Shelves × Result ReservationError (List Reservation))
      → find_by_id r.id shelves.reservations ≡ some found
      → found.branch == branch ≡ true
      → is_active found.status ≡ false
      → (later : List Reservation) × (expired_then shelves done next
            (close key (expiry expire_key digest branch reason r) shelves)
          ≡ next shelves later)
  unfolding close close_found
  closed-turn r found shelves done next e own inactive =
      let closure = expiry expire_key digest branch reason r in
      elim (Bool-cases (status_index found.status == 2 && is_closed_by found.closure closure)) [
        | inl same ↦ (done, rw (close, e, close_found, own, inactive, same) refl)
        | inr differs ↦ (done, rw (close, e, close_found, own, inactive, differs) refl)
      ]

  pub expire_all-IsExpired :
      (tracked : (b : Books) (m : StockMovement) → key.is_tracked b m ≡ true)
      (listed : List Reservation) (shelves : Shelves) (done : List Reservation)
      → IsBacked shelves
      → all_of_branch branch listed shelves.reservations ≡ true
      → IsExpired listed shelves
          (expire_all key (expiry expire_key digest branch reason) listed shelves done)
  unfolding expire_all contains all_of_branch
  expire_all-IsExpired tracked [] shelves done b known = record {
    closed = done;
    answered = refl;
    backed = b;
    facts = λ id. refl;
    opened = λ id. ground arith;
  }
  expire_all-IsExpired tracked (r ∷ rest) shelves done b known =
      let closure = expiry expire_key digest branch reason r in
      elim (Option-cases (find_by_id r.id shelves.reservations)) [
        | inl e ↦ absurd (ground arith)
        | inr (found, e) ↦ elim (Bool-cases (is_active found.status)) [
          | inl is_act ↦
              let (books, h) =
                close-total key closure refl shelves tracked found b e (ground arith) is_act in
              let after : Shelves = record {
                books = books;
                reservations = update_row closure shelves.reservations;
              } in
              let turn =
                expire_all-IsExpired tracked rest after (done ++ closed_row closure found ∷ [])
                  (close-IsBacked key closure refl shelves (closed_row closure found) after false h
                    b)
                  (all_of_branch-update closure branch rest shelves.reservations ∙ ground arith) in
              rw h (record {
                closed = turn.closed;
                answered = turn.answered;
                backed = turn.backed;
                facts = λ id. turn.facts id ∙ update-row_facts closure id shelves.reservations;
                opened = λ id.
                    ground
                      (arith, turn.opened id, update-is_open closure id shelves.reservations refl);
              })
          | inr closed ↦
              let (later, h) =
                closed-turn r found shelves done
                  (expire_all key (expiry expire_key digest branch reason) rest) e (ground arith)
                  closed in
              let turn = expire_all-IsExpired tracked rest shelves later b (ground arith) in
              rw h (record {
                closed = turn.closed;
                answered = turn.answered;
                backed = turn.backed;
                facts = turn.facts;
                opened = λ id.
                    turn.opened id ∙ still_closed id r found rest shelves.reservations e closed;
              })
        ]
      ]

-- Wherever the loop ends, the balances hold what the active reservations need.
module _ (key : MovementNames) (closure : Reservation → Closure)
    (closing : (r : Reservation) → is_active (closure r).status ≡ false) where
  turn-IsBacked :
      {put taken : ℕ → ℕ → ℕ} (shelves : Shelves) (done : List Reservation)
      (next : Shelves → List Reservation → Shelves × Result ReservationError (List Reservation))
      (answer : Result ReservationError (Shelves × Reservation × Bool))
      → IsBackedBy put taken shelves
      → ((after : Shelves) (r : Reservation) (replayed : Bool)
          → answer ≡ ok (after, r, replayed)
          → IsBackedBy put taken after)
      → ((after : Shelves) (later : List Reservation)
          → IsBackedBy put taken after
          → IsBackedBy put taken (next after later).0)
      → IsBackedBy put taken (expired_then shelves done next answer).0
  turn-IsBacked shelves done next (ok (after, r, replayed)) b closed goes_on =
      goes_on after (if replayed then done else done ++ r ∷ []) (closed after r replayed refl)
  turn-IsBacked shelves done next (err (not_active status)) b closed goes_on =
      goes_on shelves done b
  turn-IsBacked shelves done next (err idempotency_conflict) b closed goes_on = b
  turn-IsBacked shelves done next (err target_not_found) b closed goes_on = b
  turn-IsBacked shelves done next (err duplicate_row) b closed goes_on = b
  turn-IsBacked shelves done next (err tracking_refused) b closed goes_on = b
  turn-IsBacked shelves done next (err (insufficient_stock product)) b closed goes_on = b

  pub expire_all-IsBacked :
      {put taken : ℕ → ℕ → ℕ} (listed : List Reservation) (shelves : Shelves)
      (done : List Reservation)
      → IsBackedBy put taken shelves
      → IsBackedBy put taken (expire_all key closure listed shelves done).0
  unfolding expire_all
  expire_all-IsBacked [] shelves done b = b
  expire_all-IsBacked (r ∷ rest) shelves done b =
      turn-IsBacked shelves done (expire_all key closure rest) (close key (closure r) shelves) b
        (λ after answer replayed h.
          close-IsBacked key (closure r) (closing r) shelves answer after replayed h b)
        (λ after later backed. expire_all-IsBacked rest after later backed)

pub expire_due-IsBacked :
    {put taken : ℕ → ℕ → ℕ} (key : MovementNames) (expire_key : ℕ → ℕ)
    (digest : ReservationStatus → ℕ → ℕ) (reason now branch : ℕ) (shelves : Shelves)
    → IsBackedBy put taken shelves
    → IsBackedBy put taken (expire_due key expire_key digest reason now branch shelves).0
unfolding expire_due
expire_due-IsBacked key expire_key digest reason now branch shelves b =
    expire_all-IsBacked key (expiry expire_key digest branch reason) (λ r. refl)
      (due now branch shelves.reservations) shelves [] b

-- A row that is found and due was due before, with the same identifier.
was_due :
    (now branch id : ℕ) (before : Option Reservation) (after : Reservation)
    → row_facts (some after) ≡ row_facts before
    → is_active after.status ≡ true
    → is_open before ≡ true
    → is_due now branch after ≡ true
    → (r : Reservation) × (before ≡ some r) × (is_due now branch r ≡ true)
was_due now branch id none after same now_active was h = absurd (ground arith)
was_due now branch id (some r) after same now_active was h = (r, refl, ground arith)

module _ (key : MovementNames) (expire_key : ℕ → ℕ) (digest : ReservationStatus → ℕ → ℕ)
    (reason now branch : ℕ) (shelves : Shelves)
    (tracked : (b : Books) (m : StockMovement) → key.is_tracked b m ≡ true)
    (b : IsBacked shelves) where
  abbrev result : Shelves × Result ReservationError (List Reservation)
  result = expire_due key expire_key digest reason now branch shelves

  result-IsExpired : IsExpired (due now branch shelves.reservations) shelves result
  unfolding expire_due
  result-IsExpired =
      expire_all-IsExpired key expire_key digest reason branch tracked
        (due now branch shelves.reservations) shelves [] b
        (all_of_branch-due now branch shelves.reservations b.distinct)

  not_due :
      (id : ℕ) (r : Reservation)
      → find_by_id id result.0.reservations ≡ some r
      → is_due now branch r ≡ false
  not_due id r e = elim (Bool-cases (is_due now branch r)) [
    | inr no_longer ↦ no_longer
    | inl is ↦
        let t = result-IsExpired in
        let opened = rw e at (t.opened id) in
        let (before, found, was) =
          was_due now branch id (find_by_id id shelves.reservations) r (rw e at (t.facts id))
            (ground arith) (ground arith) is in
        absurd (ground (arith, contains-due now branch id shelves.reservations before found was))
  ]

  -- Where the balances hold what the active reservations need, and the valuation, the lots and the
  -- serials accept the movements, a run of the expiry ends without an error, keeps that so, and leaves no
  -- reservation of the branch that is active and due.
  pub expire_due_complete :
      IsBacked result.0
      × ((closed : List Reservation) × (result.1 ≡ ok closed))
      × (due now branch result.0.reservations ≡ [])
  expire_due_complete =
      let t = result-IsExpired in
      (
        t.backed,
        (t.closed, t.answered),
        due-empty now branch result.0.reservations t.backed.distinct not_due,
      )
