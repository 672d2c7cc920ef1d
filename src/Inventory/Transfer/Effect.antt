-- ===== src/Inventory/Transfer/Effect.antt =====
-- A transfer moves its lines from one warehouse to the other, and nothing else.
use gs_erp.Base.{
  any-insert, ℕ, ◌+◌, ◌≡◌, refl, sym, ap, ◌∙◌, inl, inr, ◌&&◌, List, [], ◌∷◌, arith, ◌==◌,
  if◌then◌else◌, Bool-cases, ℤ, pos, ◌+ℤ◌, +ℤ_zero, ok, neg, Option, none, >>=-eq-ok, +ℤ_assoc,
  int_laws, each, ok-injective, subst, insert, raise_if, each_inv, err, transfer_already_posted,
  lookup-insert, ==_refl, str_eq_refl, str_eq,
}
use gs_erp.Inventory.Movement.{
  transfer_out, transfer_in, MovementSpec, IsMovement, make_movement, make_movement-IsMovement,
  direction,
}
use gs_erp.Inventory.Stock
use gs_erp.Inventory.Stock.{Stock, RecordedMovement, delta, recorded, or_created}
use gs_erp.Inventory.Stock.Projection.{
  keys_of, execute-Recorded, quantity_of, quantity-or_created, IsProjection, execute-IsProjection,
}
use gs_erp.Inventory.Transfer.{
  TransferStatus, StockTransfer, is_taken, post_transfer_by_id, TransferLineSpec, TransferSpec,
  Transfers, PostedTransfer, Moved, side, move_line, move_lines, post_transfer,
}

-- What a movement adds to the stock of a product in a warehouse.
abbrev pub change : MovementSpec → ℕ → ℕ → ℤ
change spec p w = if p == spec.product_id && w == spec.warehouse_id then delta spec else pos 0

-- The stock of a product in a warehouse.
abbrev pub level : Stock → ℕ → ℕ → ℤ
level s p w = quantity_of (s.on_hand p w)

pub execute-level :
    (spec : MovementSpec) (s t : Stock) (r : RecordedMovement)
    → Stock.execute spec s ≡ ok (t, r)
    → (p w : ℕ) → level t p w ≡ level s p w +ℤ change spec p w
execute-level spec s t r h p w =
    let a = execute-Recorded spec s t r h in
    let e : t ≡ (recorded spec a.soh s a.costed).0 = sym (ap (λ x. x.0) a.end) in
    let q : a.soh.quantity ≡ quantity_of (s.on_hand spec.product_id spec.warehouse_id) =
      ap (λ x. x.quantity) a.is_row
      ∙ quantity-or_created (s.on_hand spec.product_id spec.warehouse_id) spec.quantity.uom_code in
    rw e (elim (Bool-cases (p == spec.product_id && w == spec.warehouse_id)) [
      | inl here ↦
          let (ep, ew) = keys_of p spec.product_id w spec.warehouse_id here in
          rw (here, q, ep, ew) refl
      | inr there ↦ rw there (sym (+ℤ_zero _))
    ])

-- The quantity of a product on the lines.
abbrev pub sent : ℕ → List TransferLineSpec → ℕ
sent p [] = 0
sent p (l ∷ ls) = (if p == l.product_id then l.quantity.value else 0) + sent p ls

-- What a transfer of that quantity adds to a warehouse.
abbrev pub shift : ℕ → ℕ → ℕ → ℕ → ℤ
shift source destination w n =
    (if w == destination then pos n else pos 0) +ℤ (if w == source then neg (pos n) else pos 0)

abbrev pub line_shift : ℕ → ℕ → ℕ → ℕ → TransferLineSpec → ℤ
line_shift source destination p w l =
    shift source destination w (if p == l.product_id then l.quantity.value else 0)

change-side :
    (l : TransferLineSpec) (a b pk p w : ℕ) (c d : Option ℤ)
    → change (side l a transfer_out pk c) p w +ℤ change (side l b transfer_in pk d) p w
      ≡ line_shift a b p w l
unfolding direction
change-side l a b pk p w c d = grind int_laws

-- A line that was moved, taken apart.
record LineMoved (source destination pk : ℕ) (m n : Moved) (l : TransferLineSpec) : Type 0 where
  middle : Stock
  out_rec : RecordedMovement
  in_rec : RecordedMovement
  is_out : IsMovement (side l source transfer_out pk none)
  is_in : IsMovement (side l destination transfer_in pk out_rec.unit_cost)
  left : Stock.execute (side l source transfer_out pk none) m.stock ≡ ok (middle, out_rec)
  entered :
      Stock.execute (side l destination transfer_in pk out_rec.unit_cost) middle
      ≡ ok (n.stock, in_rec)

move_line-LineMoved :
    (source destination pk : ℕ) (m n : Moved) (l : TransferLineSpec)
    → move_line source destination pk m l ≡ ok n
    → LineMoved source destination pk m n l
move_line-LineMoved source destination pk m n l h =
    let (x, e1, h1) = >>=-eq-ok (make_movement (side l source transfer_out pk none)) _ h in
    let (ex, vx) = make_movement-IsMovement _ x e1 in
    let ((s1, a), e2, h2) = >>=-eq-ok (Stock.execute x m.stock) _ h1 in
    let (y, e3, h3) =
      >>=-eq-ok (make_movement (side l destination transfer_in pk a.unit_cost)) _ h2 in
    let (ey, vy) = make_movement-IsMovement _ y e3 in
    let ((s2, b), e4, h4) = >>=-eq-ok (Stock.execute y s1) _ h3 in
    let en = ap (λ z. z.stock) (ok-injective h4) in
    record {
      middle = s1;
      out_rec = a;
      in_rec = b;
      is_out = vx;
      is_in = vy;
      left = subst (λ z. Stock.execute z m.stock ≡ ok (s1, a)) ex e2;
      entered =
          subst (λ z. Stock.execute z s1 ≡ ok (n.stock, b)) ey
            (subst (λ z. Stock.execute y s1 ≡ ok (z, b)) en e4);
    }

move_line-level :
    (source destination pk : ℕ) (m n : Moved) (l : TransferLineSpec)
    → move_line source destination pk m l ≡ ok n
    → (p w : ℕ) → level n.stock p w ≡ level m.stock p w +ℤ line_shift source destination p w l
move_line-level source destination pk m n l h p w =
    let a = move_line-LineMoved source destination pk m n l h in
    let out = execute-level _ m.stock a.middle a.out_rec a.left p w in
    let into = execute-level _ a.middle n.stock a.in_rec a.entered p w in
    rw (into, out)
      (+ℤ_assoc _ _ _
        ∙ ap (λ x. level m.stock p w +ℤ x)
            (change-side l source destination pk p w none a.out_rec.unit_cost))

move_line-IsProjection :
    (source destination pk : ℕ) (m n : Moved) (l : TransferLineSpec)
    → IsProjection m.stock
    → move_line source destination pk m l ≡ ok n
    → IsProjection n.stock
move_line-IsProjection source destination pk m n l inv h =
    let a = move_line-LineMoved source destination pk m n l h in
    execute-IsProjection _ a.middle n.stock a.in_rec a.is_in
      (execute-IsProjection _ m.stock a.middle a.out_rec a.is_out inv a.left) a.entered

shift-sent :
    (source destination p w : ℕ) (l : TransferLineSpec) (ls : List TransferLineSpec)
    → shift source destination w (sent p (l ∷ ls))
      ≡ line_shift source destination p w l +ℤ shift source destination w (sent p ls)
shift-sent source destination p w l ls = grind (int_laws, arith)

lines_level :
    (source destination pk : ℕ) (ls : List TransferLineSpec) (m n : Moved)
    → each (move_line source destination pk) m ls ≡ ok n
    → (p w : ℕ) → level n.stock p w ≡ level m.stock p w +ℤ shift source destination w (sent p ls)
lines_level source destination pk [] m n h p w = let e = ok-injective h in rw e (grind int_laws)
lines_level source destination pk (l ∷ ls) m n h p w =
    let (u, e, r) =
      >>=-eq-ok (move_line source destination pk m l)
        (λ x. each (move_line source destination pk) x ls) h in
    rw
      (
        lines_level source destination pk ls u n r p w,
        move_line-level source destination pk m u l e p w,
      )
      (+ℤ_assoc _ _ _
        ∙ ap (λ x. level m.stock p w +ℤ x) (sym (shift-sent source destination p w l ls)))

-- A posted transfer, taken apart.
record Posted (spec : TransferSpec) (t u : Transfers) (r : PostedTransfer) : Type 0 where
  moved : Moved
  is_moved : move_lines spec t.next_pk t.stock ≡ ok moved
  stock : u.stock ≡ moved.stock
  headers :
      u.headers
      ≡ insert t.next_pk (record { spec = spec; status = TransferStatus.posted }) t.headers
  id : r.transfer_id ≡ t.next_pk

post_transfer-Posted :
    (spec : TransferSpec) (t u : Transfers) (r : PostedTransfer)
    → post_transfer spec t ≡ ok (u, r)
    → Posted spec t u r
unfolding post_transfer
post_transfer-Posted spec t u r h =
    let (x, e1, h1) =
      >>=-eq-ok (raise_if (is_taken spec.reference t.headers) transfer_already_posted) _ h in
    let (m, e2, h2) = >>=-eq-ok (move_lines spec t.next_pk t.stock) _ h1 in
    let e = ok-injective h2 in
    record {
      moved = m;
      is_moved = e2;
      stock = sym (ap (λ z. z.0.stock) e);
      headers = sym (ap (λ z. z.0.headers) e);
      id = sym (ap (λ z. z.1.transfer_id) e);
    }

-- A posted transfer adds to each product's stock in the destination what its lines list of that
-- product, takes the same from the source, and leaves every other warehouse as it was; the on-hand
-- rows remain the projection of the movement log.
pub post_transfer-moves :
    (spec : TransferSpec) (t u : Transfers) (r : PostedTransfer)
    → IsProjection t.stock
    → post_transfer spec t ≡ ok (u, r)
    → ((p w : ℕ)
        → level u.stock p w
          ≡ level t.stock p w
            +ℤ shift spec.source_warehouse_id spec.destination_warehouse_id w (sent p spec.lines))
      × IsProjection u.stock
post_transfer-moves spec t u r inv h =
    let a = post_transfer-Posted spec t u r h in
    let src = spec.source_warehouse_id in
    let dst = spec.destination_warehouse_id in
    (
      λ p w. rw a.stock (lines_level src dst t.next_pk spec.lines _ a.moved a.is_moved p w),
      rw a.stock (
          each_inv (λ m. IsProjection m.stock) (move_line src dst t.next_pk)
            (λ m l n keep e. move_line-IsProjection src dst t.next_pk m n l keep e) _ spec.lines
            a.moved inv a.is_moved),
    )

-- A transfer is posted once: after that, any transfer with its reference is refused, and so is
-- posting it by its key.
pub post_transfer-once :
    (spec other : TransferSpec) (t u : Transfers) (r : PostedTransfer)
    → other.reference ≡ spec.reference
    → post_transfer spec t ≡ ok (u, r)
    → (post_transfer other u ≡ err transfer_already_posted)
      × (post_transfer_by_id r.transfer_id u ≡ err transfer_already_posted)
unfolding post_transfer post_transfer_by_id
post_transfer-once spec other t u r same h =
    let a = post_transfer-Posted spec t u r h in
    let row : StockTransfer = record { spec = spec; status = TransferStatus.posted } in
    (
      rw
          (
            a.headers,
            same,
            any-insert (λ (x : StockTransfer). str_eq x.spec.reference spec.reference) t.next_pk row
                t.headers (str_eq_refl spec.reference),
          )
          refl,
      rw (a.headers, a.id, lookup-insert t.next_pk t.next_pk _ t.headers, ==_refl t.next_pk) refl,
    )
