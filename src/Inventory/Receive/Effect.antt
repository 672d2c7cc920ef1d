-- ===== src/Inventory/Receive/Effect.antt =====
-- What is received enters the stock, which stays valued at its average cost.
use gs_erp.Base.{
  subst, ℕ, ◌+◌, ◌≡◌, refl, sym, ap, ◌∙◌, inl, inr, ◌&&◌, none, some, List, [], ◌∷◌, arith, ◌==◌,
  if◌then◌else◌, Bool-cases, Option-cases, All, ℤ, pos, ◌+ℤ◌, ◌*ℤ◌, ◌≤ℤ◌, int_laws, +ℤ_zero, ok,
  raise_if, >>=-eq-ok, integrity_error, each, ok-injective,
}
use gs_erp.Inventory.Movement.{MovementType, type_direction}
use gs_erp.Inventory.Cost.{StockOnHand, on_inbound}
use gs_erp.Inventory.Stock.{Stock, write_stock, or_created}
use gs_erp.Inventory.Stock.Projection.{
  IsProjection, keys_of, quantity_of, one_times, write_stock-IsProjection, quantity-write_stock,
  quantity-or_created,
}
use gs_erp.Inventory.Stock.Validity.{
  AllStock, or_created-IsStock, with_inbound-IsStock, write_stock-AllStock,
}
use gs_erp.Inventory.Transfer.Effect.{level}
use gs_erp.Inventory.Issue.{issuable}
use gs_erp.Inventory.Issue.Books.{issuable_same}
use gs_erp.Inventory.Receive.{
  PurchaseLineSpec, Bought, Received, inbound_row, receive_product, receive_line,
  receive_purchased_inventory,
}

-- What a line brings to the stock of a product in a warehouse: nothing, when its product is unknown
-- or is not kept in stock.
abbrev pub brought : Stock → ℕ → ℕ → PurchaseLineSpec → ℕ
brought s p w l =
    if p == l.product_id && w == l.warehouse_id
    then elim (issuable s l.product_id) [ none ↦ 0 | some x ↦ l.quantity ]
    else 0

abbrev pub brought_by : Stock → ℕ → ℕ → List PurchaseLineSpec → ℕ
brought_by s p w [] = 0
brought_by s p w (l ∷ ls) = brought s p w l + brought_by s p w ls

abbrev row_before : Received → PurchaseLineSpec → StockOnHand
row_before a l = or_created (a.stock.on_hand l.product_id l.warehouse_id) l.uom_code

abbrev row_after : Received → PurchaseLineSpec → StockOnHand
row_after a l = record (on_inbound (row_before a l) (pos l.quantity) l.unit_cost) {
  quantity = (row_before a l).quantity +ℤ pos l.quantity;
}

receive_product-stock :
    (d : Bought) (a b : Received) (l : PurchaseLineSpec)
    → receive_product d a l ≡ ok b
    → b.stock ≡ write_stock (inbound_row d l) (row_after a l) a.stock
unfolding receive_product
receive_product-stock d a b l h =
    let (u, e, h1) = >>=-eq-ok (raise_if (l.quantity == 0) integrity_error) _ h in
    sym (ap (λ z. z.stock) (ok-injective h1))

row_quantity :
    (a : Received) (l : PurchaseLineSpec)
    → (row_after a l).quantity
      ≡ quantity_of (a.stock.on_hand l.product_id l.warehouse_id) +ℤ pos l.quantity
row_quantity a l =
    ap (λ x. x +ℤ pos l.quantity)
      (quantity-or_created (a.stock.on_hand l.product_id l.warehouse_id) l.uom_code)

inbound_quantity : (q : ℤ) (n : ℕ) → q +ℤ pos n ≡ q +ℤ type_direction MovementType.inbound *ℤ pos n
unfolding type_direction
inbound_quantity q n = rw (one_times n) refl

-- What the lines so far keep.
record InStep (s : Stock) (a : Received) : Type 0 where
  projection : IsProjection a.stock
  valid : AllStock a.stock
  products : a.stock.products ≡ s.products

receive_product-InStep :
    (s : Stock) (d : Bought) (a b : Received) (l : PurchaseLineSpec)
    → pos 0 ≤ℤ l.unit_cost
    → InStep s a
    → receive_product d a l ≡ ok b
    → InStep s b
receive_product-InStep s d a b l cost v h =
    let m = inbound_row d l in
    let e = receive_product-stock d a b l h in
    let q = quantity_of (a.stock.on_hand l.product_id l.warehouse_id) in
    let old =
      or_created-IsStock (a.stock.on_hand l.product_id l.warehouse_id) l.uom_code
        (v.valid l.product_id l.warehouse_id) in
    record {
      projection = subst IsProjection (sym e) (
          write_stock-IsProjection m (row_after a l) a.stock v.projection
            (row_quantity a l ∙ inbound_quantity q l.quantity));
      valid = subst AllStock (sym e) (
          write_stock-AllStock m (row_after a l) a.stock
            (with_inbound-IsStock (row_before a l) l.quantity (some l.unit_cost) old cost
              (λ absent. cc))
            v.valid);
      products = ap (λ z. z.products) e ∙ v.products;
    }

line_level :
    (d : Bought) (a b : Received) (l : PurchaseLineSpec)
    → receive_product d a l ≡ ok b
    → (p w : ℕ)
    → level b.stock p w
      ≡ level a.stock p w
        +ℤ pos (if p == l.product_id && w == l.warehouse_id then l.quantity else 0)
line_level d a b l h p w =
    ap (λ z. level z p w) (receive_product-stock d a b l h)
    ∙ rw (quantity-write_stock (inbound_row d l) (row_after a l) a.stock p w)
        (elim (Bool-cases (p == l.product_id && w == l.warehouse_id)) [
          | inl here ↦
              let (ep, ew) = keys_of p l.product_id w l.warehouse_id here in
              rw (here, ep, ew) (row_quantity a l)
          | inr there ↦ rw there (sym (+ℤ_zero _))
        ])

nothing_brought :
    (s : Stock) (p w : ℕ) (l : PurchaseLineSpec)
    → issuable s l.product_id ≡ none
    → brought s p w l ≡ 0
nothing_brought s p w l absent = rw (brought, absent) (ground arith)

one_line :
    (s : Stock) (d : Bought) (a b : Received) (l : PurchaseLineSpec)
    → pos 0 ≤ℤ l.unit_cost
    → InStep s a
    → receive_line d a l ≡ ok b
    → InStep s b × ((p w : ℕ) → level b.stock p w ≡ level a.stock p w +ℤ pos (brought s p w l))
one_line s d a b l cost v h =
    let same = issuable_same s a.stock l.product_id v.products in
    elim (Option-cases (issuable s l.product_id)) [
      | inl gone ↦
          let e = ok-injective (rw (receive_line, same ∙ gone) at h) in
          (
            subst (InStep s) e v,
            λ p w.
                rw (nothing_brought s p w l gone)
                  (ap (λ z. level z.stock p w) (sym e) ∙ sym (+ℤ_zero _)),
          )
      | inr (product, known) ↦
          let done = rw (receive_line, same ∙ known) at h in
          (
            receive_product-InStep s d a b l cost v done,
            λ p w. rw (brought, known) (line_level d a b l done p w),
          )
    ]

regroup : (x : ℤ) (m n : ℕ) → x +ℤ pos m +ℤ pos n ≡ x +ℤ pos (m + n)
regroup x m n = omega int_laws

lines_received :
    (s : Stock) (d : Bought) (ls : List PurchaseLineSpec) (a b : Received)
    → All (λ l. pos 0 ≤ℤ l.unit_cost) ls
    → InStep s a
    → each (receive_line d) a ls ≡ ok b
    → InStep s b × ((p w : ℕ) → level b.stock p w ≡ level a.stock p w +ℤ pos (brought_by s p w ls))
lines_received s d [] a b costs v h =
    let e = ok-injective h in
    (subst (InStep s) e v, λ p w. ap (λ z. level z.stock p w) (sym e) ∙ sym (+ℤ_zero _))
lines_received s d (l ∷ ls) a b (cost, costs) v h =
    let (m, e, r) = >>=-eq-ok (receive_line d a l) (λ x. each (receive_line d) x ls) h in
    let (keeps, level_of) = one_line s d a m l cost v e in
    let (rest, levels) = lines_received s d ls m b costs keeps r in
    (
      rest,
      λ p w.
          levels p w
          ∙ ap (λ x. x +ℤ pos (brought_by s p w ls)) (level_of p w)
          ∙ regroup (level a.stock p w) (brought s p w l) (brought_by s p w ls),
    )

-- Receiving the lines of a purchase whose unit costs are not negative: each stock grows by the
-- quantities that the lines of stocked products list of it, the on-hand rows remain the projection
-- of the log, and every row stays valid, its value being its quantity at average cost.
pub receive_purchased_inventory-stock :
    (d : Bought) (lines : List PurchaseLineSpec) (s : Stock) (b : Received)
    → All (λ l. pos 0 ≤ℤ l.unit_cost) lines
    → IsProjection s
    → AllStock s
    → receive_purchased_inventory d lines s ≡ ok b
    → ((p w : ℕ) → level b.stock p w ≡ level s p w +ℤ pos (brought_by s p w lines))
      × IsProjection b.stock
      × AllStock b.stock
unfolding receive_purchased_inventory
receive_purchased_inventory-stock d lines s b costs p v h =
    let start : InStep s (record { stock = s; lines = [] }) = record {
      projection = p;
      valid = v;
      products = refl;
    } in
    let (keeps, levels) = lines_received s d lines _ b costs start h in
    (levels, keeps.projection, keeps.valid)
