-- ===== src/Inventory/Adjustment/Effect.antt =====
-- What a posted adjustment does to the stock.
use gs_erp.Base.{
  any-insert, subst, ℕ, String, ◌≡◌, refl, sym, ap, ◌∙◌, ◌&&◌, List, [], ◌∷◌, arith, ◌==◌,
  if◌then◌else◌, ==_refl, ℤ, pos, ◌+ℤ◌, abs, +ℤ_zero, +ℤ_assoc, ok, err, raise_if, >>=-eq-ok,
  is_empty_text, insert, lookup-insert, invalid_quantity, adjustment_already_posted, each, each_inv,
  ok-injective, str_eq_refl, str_eq,
}
use gs_erp.Core.Date.{Date}
use gs_erp.Core.Currency.{Unicode}
use gs_erp.Core.Quantity.{Quantity}
use gs_erp.Inventory.Movement.{
  MovementSpec, IsMovement, make_movement, make_movement-IsMovement, direction,
}
use gs_erp.Inventory.Stock
use gs_erp.Inventory.Stock.{Stock, RecordedMovement, delta}
use gs_erp.Inventory.Stock.Projection.{IsProjection, execute-IsProjection}
use gs_erp.Inventory.Transfer.Effect.{level, execute-level}
use gs_erp.Inventory.Adjustment.{
  AdjustmentLineSpec, AdjustmentSpec, StockAdjustment, Adjustments, PostedAdjustment, Adjusted,
  magnitude, movement_of, post_gl, adjust_line, adjust_lines, is_taken, header_of,
  record_adjustment, record_adjustment_by_id,
}

-- What a line adds to the stock of a product in a warehouse, and the lines together.
abbrev pub line_change : ℕ → ℕ → ℕ → AdjustmentLineSpec → ℤ
line_change warehouse p w l =
    if p == l.product_id && w == warehouse then l.signed_quantity else pos 0

abbrev pub lines_change : ℕ → ℕ → ℕ → List AdjustmentLineSpec → ℤ
lines_change warehouse p w [] = pos 0
lines_change warehouse p w (l ∷ ls) = line_change warehouse p w l +ℤ lines_change warehouse p w ls

abbrev pub quantity_of_line : AdjustmentLineSpec → Quantity
quantity_of_line l = record { value = abs l.signed_quantity; uom_code = l.uom_code }

-- The movement of a line.
abbrev pub spec_of : ℕ → ℕ → AdjustmentLineSpec → MovementSpec
spec_of warehouse pk l = movement_of warehouse pk l (quantity_of_line l)

delta-spec_of :
    (warehouse pk : ℕ) (l : AdjustmentLineSpec) → delta (spec_of warehouse pk l) ≡ l.signed_quantity
unfolding direction
delta-spec_of warehouse pk l = ground arith

-- A line that was posted, taken apart.
pub record LineAdjusted (u : Unicode) (code : String) (date : Date) (warehouse pk : ℕ)
    (a b : Adjusted) (l : AdjustmentLineSpec) : Type 0 where
  pub recorded : RecordedMovement
  pub is_movement : IsMovement (spec_of warehouse pk l)
  pub executed : Stock.execute (spec_of warehouse pk l) a.stock ≡ ok (b.stock, recorded)
  pub gl : post_gl u code date recorded.movement_id b.stock a.ledger ≡ ok b.ledger

magnitude_lem :
    (l : AdjustmentLineSpec) (q : Quantity) → magnitude l ≡ ok q → q ≡ quantity_of_line l
unfolding magnitude
magnitude_lem l q h =
    let (x, e, h1) = >>=-eq-ok (raise_if (is_empty_text l.uom_code) invalid_quantity) _ h in
    sym (ok-injective h1)

pub adjust_line-LineAdjusted :
    (u : Unicode) (code : String) (date : Date) (warehouse pk : ℕ) (a b : Adjusted)
    (l : AdjustmentLineSpec)
    → adjust_line u code date warehouse pk a l ≡ ok b
    → LineAdjusted u code date warehouse pk a b l
adjust_line-LineAdjusted u code date warehouse pk a b l h =
    let (q, e1, h1) = >>=-eq-ok (magnitude l) _ h in
    let same = magnitude_lem l q e1 in
    let (x, e2, h2) = >>=-eq-ok (make_movement (movement_of warehouse pk l q)) _ h1 in
    let (ex, vx) = make_movement-IsMovement _ x e2 in
    let is_spec : x ≡ spec_of warehouse pk l = ex ∙ ap (movement_of warehouse pk l) same in
    let ((s1, r), e3, h3) = >>=-eq-ok (Stock.execute x a.stock) _ h2 in
    let (g, e4, h4) = >>=-eq-ok (post_gl u code date r.movement_id s1 a.ledger) _ h3 in
    let e = ok-injective h4 in
    let es : s1 ≡ b.stock = ap (λ z. z.stock) e in
    let eg : g ≡ b.ledger = ap (λ z. z.ledger) e in
    record {
      recorded = r;
      is_movement = subst (λ z. IsMovement (movement_of warehouse pk l z)) same vx;
      executed =
          subst (λ z. Stock.execute z a.stock ≡ ok (b.stock, r)) is_spec
            (subst (λ z. Stock.execute x a.stock ≡ ok (z, r)) es e3);
      gl =
          subst (λ z. post_gl u code date r.movement_id z a.ledger ≡ ok b.ledger) es
            (subst (λ z. post_gl u code date r.movement_id s1 a.ledger ≡ ok z) eg e4);
    }

adjust_line-level :
    (u : Unicode) (code : String) (date : Date) (warehouse pk : ℕ) (a b : Adjusted)
    (l : AdjustmentLineSpec)
    → adjust_line u code date warehouse pk a l ≡ ok b
    → (p w : ℕ) → level b.stock p w ≡ level a.stock p w +ℤ line_change warehouse p w l
adjust_line-level u code date warehouse pk a b l h p w =
    let v = adjust_line-LineAdjusted u code date warehouse pk a b l h in
    let m = execute-level (spec_of warehouse pk l) a.stock b.stock v.recorded v.executed p w in
    rw (delta-spec_of warehouse pk l) at m

adjust_line-IsProjection :
    (u : Unicode) (code : String) (date : Date) (warehouse pk : ℕ) (a b : Adjusted)
    (l : AdjustmentLineSpec)
    → IsProjection a.stock
    → adjust_line u code date warehouse pk a l ≡ ok b
    → IsProjection b.stock
adjust_line-IsProjection u code date warehouse pk a b l inv h =
    let v = adjust_line-LineAdjusted u code date warehouse pk a b l h in
    execute-IsProjection (spec_of warehouse pk l) a.stock b.stock v.recorded v.is_movement inv
      v.executed

pub lines_level :
    (u : Unicode) (code : String) (date : Date) (warehouse pk : ℕ) (ls : List AdjustmentLineSpec)
    (a b : Adjusted)
    → each (adjust_line u code date warehouse pk) a ls ≡ ok b
    → (p w : ℕ) → level b.stock p w ≡ level a.stock p w +ℤ lines_change warehouse p w ls
lines_level u code date warehouse pk [] a b h p w = let e = ok-injective h in rw e (sym (+ℤ_zero _))
lines_level u code date warehouse pk (l ∷ ls) a b h p w =
    let (m, e, r) =
      >>=-eq-ok (adjust_line u code date warehouse pk a l)
        (λ x. each (adjust_line u code date warehouse pk) x ls) h in
    rw
      (
        lines_level u code date warehouse pk ls m b r p w,
        adjust_line-level u code date warehouse pk a m l e p w,
      )
      (+ℤ_assoc _ _ _)

-- An accepted adjustment, taken apart.
pub record Posted (u : Unicode) (spec : AdjustmentSpec) (s t : Adjustments) (r : PostedAdjustment)
    : Type 0 where
  pub adjusted : Adjusted
  pub is_adjusted : adjust_lines u spec s.next_pk s ≡ ok adjusted
  pub stock : t.stock ≡ adjusted.stock
  pub ledger : t.ledger ≡ adjusted.ledger
  pub headers : t.headers ≡ insert s.next_pk (header_of spec adjusted.movement_ids) s.headers
  pub id : r.adjustment_id ≡ s.next_pk

pub record_adjustment-Posted :
    (u : Unicode) (spec : AdjustmentSpec) (s t : Adjustments) (r : PostedAdjustment)
    → record_adjustment u spec s ≡ ok (t, r)
    → Posted u spec s t r
unfolding record_adjustment
record_adjustment-Posted u spec s t r h =
    let (x, e1, h1) =
      >>=-eq-ok (raise_if (is_taken spec.reference s.headers) adjustment_already_posted) _ h in
    let (a, e2, h2) = >>=-eq-ok (adjust_lines u spec s.next_pk s) _ h1 in
    let e = ok-injective h2 in
    record {
      adjusted = a;
      is_adjusted = e2;
      stock = sym (ap (λ z. z.0.stock) e);
      ledger = sym (ap (λ z. z.0.ledger) e);
      headers = sym (ap (λ z. z.0.headers) e);
      id = sym (ap (λ z. z.1.adjustment_id) e);
    }

-- A posted adjustment adds to each product's stock in its warehouse the signed quantities that its
-- lines list of that product, and leaves every other warehouse as it was; the on-hand rows remain
-- the projection of the movement log.
pub record_adjustment-moves :
    (u : Unicode) (spec : AdjustmentSpec) (s t : Adjustments) (r : PostedAdjustment)
    → IsProjection s.stock
    → record_adjustment u spec s ≡ ok (t, r)
    → ((p w : ℕ)
        → level t.stock p w ≡ level s.stock p w +ℤ lines_change spec.warehouse_id p w spec.lines)
      × IsProjection t.stock
record_adjustment-moves u spec s t r inv h =
    let a = record_adjustment-Posted u spec s t r h in
    let code = spec.currency_code in
    let date = spec.adjustment_date in
    let wh = spec.warehouse_id in
    (
      λ p w.
          rw a.stock
            (lines_level u code date wh s.next_pk spec.lines _ a.adjusted a.is_adjusted p w),
      rw a.stock (
          each_inv (λ m. IsProjection m.stock) (adjust_line u code date wh s.next_pk)
            (λ m l n keep e. adjust_line-IsProjection u code date wh s.next_pk m n l keep e) _
            spec.lines a.adjusted inv a.is_adjusted),
    )

-- An adjustment is posted once: after that, any adjustment with its reference is refused, and so
-- is posting it by its key.
pub record_adjustment-once :
    (u : Unicode) (spec other : AdjustmentSpec) (code : String) (s t : Adjustments)
    (r : PostedAdjustment)
    → other.reference ≡ spec.reference
    → record_adjustment u spec s ≡ ok (t, r)
    → (record_adjustment u other t ≡ err adjustment_already_posted)
      × (record_adjustment_by_id u code r.adjustment_id t ≡ err adjustment_already_posted)
unfolding record_adjustment record_adjustment_by_id
record_adjustment-once u spec other code s t r same h =
    let a = record_adjustment-Posted u spec s t r h in
    (
      rw
          (
            a.headers,
            same,
            any-insert (λ (x : StockAdjustment). str_eq x.reference spec.reference) s.next_pk
                (header_of spec a.adjusted.movement_ids) s.headers (str_eq_refl spec.reference),
          )
          refl,
      rw (a.headers, a.id, lookup-insert s.next_pk s.next_pk _ s.headers, ==_refl s.next_pk) refl,
    )
