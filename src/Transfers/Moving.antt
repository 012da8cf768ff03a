-- ===== src/Transfers/Moving.antt =====
-- What is in transit is what the transfers wait for, but for what is moved by hand: `create` and `dispatch`.
use uinventario_api.Base.{
  ℕ, suc, ◌+◌, ◌≡◌, refl, ap, ◌∙◌, Bool, true, false, not, ◌&&◌, ◌||◌, ◌==◌, arith, Option, none,
  some, List, [], ◌∷◌, ok, Result-cases, Option-cases, Bool-cases, inl, inr,
}
use uinventario_api.QuantityPolicy.{ProductQuantityPolicy}
use uinventario_api.Stock.{Books}
use uinventario_api.Stock.Ledger.{IsConsistent}
use uinventario_api.Transfers.{
  Transfer, TransferLine, draft, dispatched, Depot, TransferRequest, LineRequest, find_transfer,
  normalize_lines, line_units, write_transfer, create, find_by_creation_key,
}
use uinventario_api.Transfers.Operations.{
  is_status, put_transfer, MovementNames, dispatch_lines, send, dispatch_found, dispatch,
}
use uinventario_api.Transfers.Pending.{
  pending, pending_in, are_within, all_within, pending-put, all_within-find, all_within-put,
}
use uinventario_api.Transfers.Dispatching.{in_transit_at, are_fresh, dispatch_lines-facts}

-- The lines of drafts have not been received.
unfoldable pub all_fresh : List Transfer → Bool
all_fresh [] = true
all_fresh (t ∷ rest) = (not (is_status t.status draft) || are_fresh t.lines) && all_fresh rest

-- What is in transit, with what was taken out of that state by hand, is what the transfers that are sent
-- wait for, with what was put into it by hand.
pub record IsMovingBy (put taken : ℕ → ℕ → ℕ) (depot : Depot) : Type 0 where
  pub consistent : IsConsistent depot.books
  pub moving :
      (p l : ℕ)
      → in_transit_at depot.books.stock p l + taken p l ≡ pending p l depot.transfers + put p l
  pub within : all_within depot.transfers ≡ true
  pub fresh : all_fresh depot.transfers ≡ true

-- Nothing was moved by hand: what is in transit is what the transfers that are sent wait for.
abbrev pub IsMoving : Depot → Type 0
IsMoving depot = IsMovingBy (λ p l. 0) (λ p l. 0) depot

all_fresh-find :
    (id : ℕ) (ts : List Transfer) (t : Transfer)
    → all_fresh ts ≡ true
    → find_transfer id ts ≡ some t
    → is_status t.status draft ≡ true
    → are_fresh t.lines ≡ true
unfolding all_fresh find_transfer
all_fresh-find id [] t h found e = absurd (ground arith)
all_fresh-find id (first ∷ rest) t h found e = elim (Bool-cases (first.id == id)) [
  | inl same ↦
      let it : first ≡ t = ground arith in
      let fresh : (not (is_status t.status draft) || are_fresh t.lines) ≡ true =
        rw (← it) (ground arith) in
      ground (arith, fresh)
  | inr other ↦ all_fresh-find id rest t (ground arith) (ground arith) e
]

all_fresh-put :
    (new : Transfer) (ts : List Transfer)
    → all_fresh ts ≡ true
    → is_status new.status draft ≡ false
    → all_fresh (put_transfer new ts) ≡ true
unfolding all_fresh put_transfer
all_fresh-put new [] h sent = refl
all_fresh-put new (first ∷ rest) h sent =
    let later = all_fresh-put new rest (ground arith) sent in ground (arith, later)

find-id : (id : ℕ) (ts : List Transfer) (t : Transfer) → find_transfer id ts ≡ some t → t.id ≡ id
unfolding find_transfer
find-id id [] t found = absurd (ground arith)
find-id id (first ∷ rest) t found = elim (Bool-cases (first.id == id)) [
  | inl same ↦ ground arith
  | inr other ↦ find-id id rest t (ground arith)
]

pub found-id :
    (id : ℕ) (ts : List Transfer) (t : Transfer)
    → find_transfer id ts ≡ some t
    → find_transfer t.id ts ≡ some t
found-id id ts t found = ap (λ x. find_transfer x ts) (find-id id ts t found) ∙ found

-- A transfer in another state is put in its place.
pub put-IsMoving :
    {put taken : ℕ → ℕ → ℕ} (depot : Depot) (t new : Transfer) (books : Books)
    → find_transfer new.id depot.transfers ≡ some t
    → IsMovingBy put taken depot
    → (IsConsistent depot.books → IsConsistent books)
    → ((p l : ℕ)
        → in_transit_at books.stock p l + pending_in p l t
          ≡ in_transit_at depot.books.stock p l + pending_in p l new)
    → are_within new.lines ≡ true
    → is_status new.status draft ≡ false
    → IsMovingBy put taken
        (record depot { books = books; transfers = put_transfer new depot.transfers })
put-IsMoving depot t new books found b consistent change within sent = record {
  consistent = consistent b.consistent;
  moving =
      λ p l. omega (arith, b.moving p l, change p l, pending-put p l new depot.transfers t found);
  within = all_within-put new depot.transfers b.within within;
  fresh = all_fresh-put new depot.transfers b.fresh sent;
}

fresh-within : (lines : List TransferLine) → are_fresh lines ≡ true → are_within lines ≡ true
unfolding are_fresh are_within
fresh-within [] h = refl
fresh-within (line ∷ rest) h =
    let later = fresh-within rest (ground arith) in rw later (ground arith)

normalize_lines-fresh :
    (policies : ℕ → Option ProductQuantityPolicy) (new_id : ℕ → ℕ) (index : ℕ)
    (requests : List LineRequest) (lines : List TransferLine)
    → normalize_lines policies new_id index requests ≡ ok lines
    → are_fresh lines ≡ true
unfolding normalize_lines are_fresh
normalize_lines-fresh policies new_id index [] lines h =
    let same : [] ≡ lines = ground arith in rw (← same) refl
normalize_lines-fresh policies new_id index (line ∷ rest) lines h =
    elim (Result-cases (line_units (policies line.product) line.quantity)) [
      | inr (_, e) ↦ absurd (ground arith)
      | inl (units, e) ↦ elim (Result-cases (normalize_lines policies new_id (suc index) rest)) [
        | inr (_, f) ↦ absurd (ground arith)
        | inl (later, f) ↦
            let fresh = normalize_lines-fresh policies new_id (suc index) rest later f in
            let stored : TransferLine = record {
              id = new_id index;
              product = line.product;
              source = line.source;
              destination = line.destination;
              quantity = units;
              received = 0;
              discrepancy = 0;
            } in
            let same : stored ∷ later ≡ lines = ground arith in rw (← same, fresh) refl
      ]
    ]

module _ (may_access : ℕ → Bool) (are_active : ℕ → ℕ → Bool) (is_line_target : ℕ → ℕ → ℕ → Bool)
    (policies : ℕ → Option ProductQuantityPolicy) where
  write_transfer-IsMoving :
      {put taken : ℕ → ℕ → ℕ} (id fingerprint : ℕ) (request : TransferRequest)
      (lines : List TransferLine) (depot after : Depot) (answer : Transfer) (replayed : Bool)
      → write_transfer may_access are_active is_line_target policies id fingerprint request lines
          depot
        ≡ ok (after, answer, replayed)
      → are_fresh lines ≡ true
      → IsMovingBy put taken depot
      → IsMovingBy put taken after
  unfolding write_transfer pending all_within all_fresh
  write_transfer-IsMoving id fingerprint request lines depot after answer replayed h fresh b =
      let new : Transfer = record {
        id = id;
        origin = request.origin;
        target = request.target;
        status = draft;
        key = request.key;
        fingerprint = fingerprint;
        dispatch_key = none;
        lines = lines;
      } in
      let same : (record depot { transfers = new ∷ depot.transfers }) ≡ after = ground arith in
      rw (← same) (record {
        consistent = b.consistent;
        moving = λ p l. omega (arith, b.moving p l);
        within = rw (fresh-within lines fresh, b.within) refl;
        fresh = rw (fresh, b.fresh) refl;
      })

  pub create-IsMoving :
      {put taken : ℕ → ℕ → ℕ} (digest : TransferRequest → List TransferLine → ℕ) (id : ℕ)
      (new_id : ℕ → ℕ) (request : TransferRequest) (depot after : Depot) (answer : Transfer)
      (replayed : Bool)
      → create may_access are_active is_line_target policies digest id new_id request depot
        ≡ ok (after, answer, replayed)
      → IsMovingBy put taken depot
      → IsMovingBy put taken after
  unfolding create
  create-IsMoving digest id new_id request depot after answer replayed h b =
      elim (Result-cases (normalize_lines policies new_id 0 request.lines)) [
        | inr (_, e) ↦ absurd (ground arith)
        | inl (lines, e) ↦ elim (Option-cases (find_by_creation_key request.key depot.transfers)) [
          | inl f ↦
              write_transfer-IsMoving id (digest request lines) request lines depot after answer
                replayed (ground arith)
                (normalize_lines-fresh policies new_id 0 request.lines lines e) b
          | inr (found, f) ↦ let same : depot ≡ after = ground arith in rw (← same) b
        ]
      ]

module _ (names : MovementNames) (are_active : ℕ → ℕ → Bool)
    (are_in_place : ℕ → ℕ → List TransferLine → Bool) where
  send-IsMoving :
      {put taken : ℕ → ℕ → ℕ} (key : ℕ) (t : Transfer) (depot after : Depot) (answer : Transfer)
      (replayed : Bool)
      → find_transfer t.id depot.transfers ≡ some t
      → is_status t.status draft ≡ true
      → send names are_active are_in_place key t depot ≡ ok (after, answer, replayed)
      → IsMovingBy put taken depot
      → IsMovingBy put taken after
  unfolding send
  send-IsMoving key t depot after answer replayed found is_draft h b =
      elim (Result-cases (dispatch_lines names t.id t.lines depot.books)) [
        | inr (_, e) ↦ absurd (ground arith)
        | inl (books, e) ↦
            let new = record t { status = dispatched; dispatch_key = some key } in
            let fresh = all_fresh-find t.id depot.transfers t b.fresh found is_draft in
            let (c, moved) = dispatch_lines-facts names t.id t.lines depot.books books fresh e in
            let same : (record depot {
              books = books;
              transfers = put_transfer new depot.transfers;
            })
                ≡ after =
              ground arith in
            rw (← same) (
              put-IsMoving depot t new books found b c (λ p l. ground (arith, moved p l))
                (all_within-find t.id depot.transfers t b.within found) refl)
      ]

  pub dispatch-IsMoving :
      {put taken : ℕ → ℕ → ℕ} (id origin key : ℕ) (depot after : Depot) (answer : Transfer)
      (replayed : Bool)
      → dispatch names are_active are_in_place id origin key depot ≡ ok (after, answer, replayed)
      → IsMovingBy put taken depot
      → IsMovingBy put taken after
  unfolding dispatch dispatch_found
  dispatch-IsMoving id origin key depot after answer replayed h b =
      elim (Option-cases (find_transfer id depot.transfers)) [
        | inl e ↦ absurd (ground arith)
        | inr (t, e) ↦ elim (Bool-cases (is_status t.status draft)) [
          | inl is_draft ↦
              send-IsMoving key t depot after answer replayed (found-id id depot.transfers t e)
                is_draft (ground arith) b
          | inr not_draft ↦ let same : depot ≡ after = ground arith in rw (← same) b
        ]
      ]
