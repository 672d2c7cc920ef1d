-- ===== src/Inventory/Stock/Projection.antt =====
-- The on-hand rows are a projection of the movement log (ADR-007).
use gs_erp.Base.{
  ℕ, String, ◌≡◌, refl, ◌&&◌, Option, none, some, List, [], ◌∷◌, ◌++◌, ◌==◌, if◌then◌else◌, ℤ, pos,
  ◌+ℤ◌, ◌*ℤ◌, int_laws, arith, negsuc, inl, ok, neg, inr, >>=-eq-ok, raise_if, ltb_ℤ,
  insufficient_stock, ◌≤ℤ◌, or_raise, sym, non_stockable_product, ap, guard, ◌∙◌,
  warehouse_not_found, Bool-cases, ok-injective, true, +ℤ_zero,
}
use gs_erp.Inventory.Movement.{MovementSpec, IsMovement, is_adjustment, type_direction, direction}
use gs_erp.Inventory.Cost.{StockOnHand}
use gs_erp.Inventory.Stock.{
  StockMovement, Stock, RecordedMovement, or_created, update_cost, delta, movement_row, recorded,
  execute, write_stock, active_product, is_stockable,
}

-- The direction of a logged movement.
abbrev pub row_direction : StockMovement → ℤ
row_direction m =
    if is_adjustment m.movement_type then m.adjustment_sign else type_direction m.movement_type

-- What a logged movement adds to the stock of a product in a warehouse.
abbrev pub effect : ℕ → ℕ → StockMovement → ℤ
effect p w m =
    if p == m.product_id && w == m.warehouse_id then row_direction m *ℤ pos m.quantity else pos 0

-- The stock by the log alone.
abbrev pub logged : ℕ → ℕ → List StockMovement → ℤ
logged p w [] = pos 0
logged p w (m ∷ ms) = effect p w m +ℤ logged p w ms

-- The stock by the projection; a row that is not there stands for none.
abbrev pub quantity_of : Option StockOnHand → ℤ
quantity_of none = pos 0
quantity_of (some soh) = soh.quantity

abbrev pub IsProjection : Stock → Type 0
IsProjection s = (p w : ℕ) → quantity_of (s.on_hand p w) ≡ logged p w s.movements

logged-append :
    (p w : ℕ) (ms : List StockMovement) (m : StockMovement)
    → logged p w (ms ++ m ∷ []) ≡ logged p w ms +ℤ effect p w m
logged-append p w [] m = omega int_laws
logged-append p w (n ∷ ms) m = rw (logged-append p w ms m) (omega int_laws)

row_direction_lem :
    (spec : MovementSpec) (cost : Option ℤ)
    → row_direction (movement_row spec cost) ≡ direction spec
unfolding direction
row_direction_lem spec cost = ground arith

pub one_times : (n : ℕ) → pos 1 *ℤ pos n ≡ pos n
unfolding ◌*ℤ◌
one_times n = grind arith

pub minus_one_times : (n : ℕ) → negsuc 0 *ℤ pos n ≡ neg (pos n)
unfolding ◌*ℤ◌
minus_one_times n = grind arith

-- The signed quantity of a valid spec is that of the row which is logged for it.
row_effect :
    (spec : MovementSpec) (cost : Option ℤ)
    → IsMovement spec
    → row_direction (movement_row spec cost) *ℤ pos spec.quantity.value ≡ delta spec
row_effect spec cost v = elim v.directed [
  | inl into ↦ rw (row_direction_lem spec cost, into) (one_times spec.quantity.value)
  | inr out ↦ rw (row_direction_lem spec cost, out) (minus_one_times spec.quantity.value)
]

pub quantity-or_created :
    (o : Option StockOnHand) (uom : String) → (or_created o uom).quantity ≡ quantity_of o
quantity-or_created none uom = refl
quantity-or_created (some soh) uom = refl

-- An accepted movement, taken apart.
pub record Recorded (spec : MovementSpec) (s t : Stock) (r : RecordedMovement) : Type 0 where
  pub soh : StockOnHand
  pub is_row : soh ≡ or_created (s.on_hand spec.product_id spec.warehouse_id) spec.quantity.uom_code
  pub enough : pos 0 ≤ℤ soh.quantity +ℤ delta spec
  pub costed : StockOnHand × Option ℤ
  pub is_cost : update_cost soh spec spec.quantity.value (direction spec) ≡ ok costed
  pub end : recorded spec soh s costed ≡ (t, r)

pub execute-Recorded :
    (spec : MovementSpec) (s t : Stock) (r : RecordedMovement)
    → execute spec s ≡ ok (t, r)
    → Recorded spec s t r
unfolding execute
execute-Recorded spec s t r h =
    let soh = or_created (s.on_hand spec.product_id spec.warehouse_id) spec.quantity.uom_code in
    let (product, e1, h1) =
      >>=-eq-ok (or_raise (active_product (s.products spec.product_id)) non_stockable_product) _
        h in
    let (u2, e2, h2) = >>=-eq-ok (guard (is_stockable product.type) non_stockable_product) _ h1 in
    let (u3, e3, h3) =
      >>=-eq-ok (guard (s.active_warehouses spec.warehouse_id) warehouse_not_found) _ h2 in
    let (u4, e4, h4) =
      >>=-eq-ok (raise_if (ltb_ℤ (soh.quantity +ℤ delta spec) (pos 0)) insufficient_stock) _ h3 in
    let (costed, e5, h5) =
      >>=-eq-ok (update_cost soh spec spec.quantity.value (direction spec)) _ h4 in
    record {
      soh = soh;
      is_row = refl;
      enough = ground arith;
      costed = costed;
      is_cost = e5;
      end = ok-injective h5;
    }

pub keys_of : (p q w v : ℕ) → (p == q && w == v) ≡ true → (p ≡ q) × (w ≡ v)
keys_of p q w v h = ground arith

-- Every accepted movement of a valid spec keeps the projection: for every product and warehouse the
-- on-hand quantity is the sum of the signed quantities in the log.
pub execute-IsProjection :
    (spec : MovementSpec) (s t : Stock) (r : RecordedMovement)
    → IsMovement spec
    → IsProjection s
    → execute spec s ≡ ok (t, r)
    → IsProjection t
execute-IsProjection spec s t r v inv h p w =
    let a = execute-Recorded spec s t r h in
    let log = logged-append p w s.movements (movement_row spec a.costed.1) in
    let e : t ≡ (recorded spec a.soh s a.costed).0 = sym (ap (λ x. x.0) a.end) in
    let q : a.soh.quantity ≡ quantity_of (s.on_hand spec.product_id spec.warehouse_id) =
      ap (λ x. x.quantity) a.is_row
      ∙ quantity-or_created (s.on_hand spec.product_id spec.warehouse_id) spec.quantity.uom_code in
    rw (e, log)
      (elim (Bool-cases (p == spec.product_id && w == spec.warehouse_id)) [
        | inl here ↦
            let (ep, ew) = keys_of p spec.product_id w spec.warehouse_id here in
            rw (here, row_effect spec a.costed.1 v, q, ep, ew)
              (ap (λ x. x +ℤ delta spec) (inv spec.product_id spec.warehouse_id))
        | inr there ↦ rw there (inv p w ∙ sym (+ℤ_zero _))
      ])

-- Writing a row keeps the projection when the row's quantity moves by the movement's signed
-- quantity.
pub write_stock-IsProjection :
    (m : StockMovement) (row : StockOnHand) (s : Stock)
    → IsProjection s
    → row.quantity
      ≡ quantity_of (s.on_hand m.product_id m.warehouse_id) +ℤ row_direction m *ℤ pos m.quantity
    → IsProjection (write_stock m row s)
write_stock-IsProjection m row s inv moves p w =
    rw (logged-append p w s.movements m)
      (elim (Bool-cases (p == m.product_id && w == m.warehouse_id)) [
        | inl here ↦
            let (ep, ew) = keys_of p m.product_id w m.warehouse_id here in
            rw (here, ep, ew)
              (moves
                ∙ ap (λ x. x +ℤ row_direction m *ℤ pos m.quantity)
                    (inv m.product_id m.warehouse_id))
        | inr there ↦ rw there (inv p w ∙ sym (+ℤ_zero _))
      ])

pub quantity-write_stock :
    (m : StockMovement) (row : StockOnHand) (s : Stock) (p w : ℕ)
    → quantity_of ((write_stock m row s).on_hand p w) ≡ (
        if p == m.product_id && w == m.warehouse_id
        then row.quantity
        else quantity_of (s.on_hand p w))
quantity-write_stock m row s p w = elim (Bool-cases (p == m.product_id && w == m.warehouse_id)) [
  | inl here ↦ rw here refl
  | inr there ↦ rw there refl
]
