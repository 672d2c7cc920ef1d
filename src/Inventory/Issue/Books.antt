-- ===== src/Inventory/Issue/Books.antt =====
-- What is sold leaves the stock, and its cost leaves the inventory account.
use gs_erp.Base.{
  subst, ℕ, ◌+◌, ◌≡◌, refl, sym, ap, ◌∙◌, inl, inr, ◌&&◌, Option, none, some, List, [], ◌∷◌, arith,
  ◌==◌, if◌then◌else◌, Bool-cases, Option-cases, length, ℤ, pos, pos_part, neg_part, ◌+ℤ◌, ◌-ℤ◌,
  ◌*ℤ◌, neg, ◌≤ℤ◌, ltb_ℤ, neg_parts, int_laws, +ℤ_zero, ok, raise_if, or_raise, >>=-eq-ok,
  insufficient_stock, value_error, integrity_error, each, ok-injective, +ℤ-neg, le_of_ltb_ℤ,
  get_elem?, get_elem?-append_self, raise_if-eq-ok, or_raise-eq-ok, ◌≢◌, false, All,
}
use mathlib.Core.Option.{some-injective}
use gs_erp.Core.Currency.{Unicode}
use gs_erp.Finance.Ledger.{Ledger}
use gs_erp.Finance.Ledger.Sums.{balance}
use gs_erp.Finance.Ledger.History.{IsLedger}
use gs_erp.Inventory.Cost.{StockOnHand, on_outbound}
use gs_erp.Inventory.Movement.{MovementType, type_direction}
use gs_erp.Inventory.Stock.{Product, Stock, write_stock, is_stockable}
use gs_erp.Inventory.Stock.Projection.{
  IsProjection, keys_of, quantity_of, minus_one_times, write_stock-IsProjection,
  quantity-write_stock,
}
use gs_erp.Inventory.Transfer.Effect.{level}
use gs_erp.Inventory.Gl.{InventoryGlResult, is_inbound, truthy, gl_accounts, post_inventory_gl}
use gs_erp.Inventory.Gl.Books.{IsTied, signed_cost, post_inventory_gl-ties}
use gs_erp.Inventory.Issue.{
  SaleLineSpec, Sold, Issued, is_unset, cost_of, outbound_row, cogs_command, issue_product,
  issuable, issue_line, issue_sold_inventory,
}

-- What a line takes from the stock of a product in a warehouse: nothing, when its product is
-- unknown or is not kept in stock.
abbrev pub taken : Stock → ℕ → ℕ → SaleLineSpec → ℕ
taken s p w l =
    if p == l.product_id && w == l.warehouse_id
    then elim (issuable s l.product_id) [ none ↦ 0 | some x ↦ l.quantity ]
    else 0

abbrev pub taken_by : Stock → ℕ → ℕ → List SaleLineSpec → ℕ
taken_by s p w [] = 0
taken_by s p w (l ∷ ls) = taken s p w l + taken_by s p w ls

-- The product of a line, when it is kept in stock, has the inventory account `inv`, and its cost of
-- goods sold goes to another account.
abbrev pub IsKeptOn : ℕ → Stock → SaleLineSpec → Type 0
IsKeptOn inv s l =
    (x : Product)
    → issuable s l.product_id ≡ some x
    → (x.inventory_account ≡ some inv) × (x.cogs_account ≢ some inv)

-- A line that was issued, taken apart.
record LineIssued (u : Unicode) (d : Sold) (a b : Issued) (l : SaleLineSpec) (product : Product)
    : Type 0 where
  soh : StockOnHand
  found : a.stock.on_hand l.product_id l.warehouse_id ≡ some soh
  enough : pos l.quantity ≤ℤ soh.quantity
  row : StockOnHand
  quantity : row.quantity ≡ soh.quantity -ℤ pos l.quantity
  stock : b.stock ≡ write_stock (outbound_row d l soh) row a.stock
  gl : Option InventoryGlResult
  posted :
      post_inventory_gl u (cogs_command d (length a.stock.movements)) b.stock a.ledger
      ≡ ok (b.ledger, gl)
  inventory_set : is_unset product.inventory_account ≡ false
  cogs_set : is_unset product.cogs_account ≡ false
  cogs : b.result.total_cogs ≡ a.result.total_cogs +ℤ cost_of soh.average_cost l.quantity

issue_product-LineIssued :
    (u : Unicode) (d : Sold) (a b : Issued) (l : SaleLineSpec) (product : Product)
    → issue_product u d a l product ≡ ok b
    → LineIssued u d a b l product
unfolding issue_product
issue_product-LineIssued u d a b l product h =
    let (u1, e1, h1) = >>=-eq-ok (raise_if (is_unset product.inventory_account) value_error) _ h in
    let (u2, e2, h2) = >>=-eq-ok (raise_if (is_unset product.cogs_account) value_error) _ h1 in
    let (soh, e3, h3) =
      >>=-eq-ok (or_raise (a.stock.on_hand l.product_id l.warehouse_id) insufficient_stock) _ h2 in
    let (u4, e4, h4) =
      >>=-eq-ok (raise_if (ltb_ℤ soh.quantity (pos l.quantity)) insufficient_stock) _ h3 in
    let (u5, e5, h5) = >>=-eq-ok (raise_if (l.quantity == 0) integrity_error) _ h4 in
    let (costed, e6, h6) = >>=-eq-ok (on_outbound soh (pos l.quantity)) _ h5 in
    let row : StockOnHand = record costed { quantity = soh.quantity -ℤ pos l.quantity } in
    let stock = write_stock (outbound_row d l soh) row a.stock in
    let ((ledger, gl), e7, h7) =
      >>=-eq-ok (post_inventory_gl u (cogs_command d (length a.stock.movements)) stock a.ledger) _
        h6 in
    let e = ok-injective h7 in
    let is_stock : b.stock ≡ stock = sym (ap (λ z. z.stock) e) in
    let is_ledger : ledger ≡ b.ledger = ap (λ z. z.ledger) e in
    record {
      soh = soh;
      found = or_raise-eq-ok _ _ e3;
      enough = le_of_ltb_ℤ soh.quantity (pos l.quantity) (raise_if-eq-ok _ _ e4);
      row = row;
      quantity = refl;
      stock = is_stock;
      gl = gl;
      posted =
          subst
            (λ z.
              post_inventory_gl u (cogs_command d (length a.stock.movements)) b.stock a.ledger
              ≡ ok (z, gl))
            is_ledger
            (subst
              (λ z.
                post_inventory_gl u (cogs_command d (length a.stock.movements)) z a.ledger
                ≡ ok (ledger, gl))
              (sym is_stock) e7);
      inventory_set = raise_if-eq-ok _ _ e1;
      cogs_set = raise_if-eq-ok _ _ e2;
      cogs = sym (ap (λ z. z.result.total_cogs) e);
    }

-- What the lines so far keep.
record InStep (inv : ℕ) (s : Stock) (g : Ledger) (a : Issued) : Type 0 where
  ledger : IsLedger a.ledger
  projection : IsProjection a.stock
  products : a.stock.products ≡ s.products
  tied : balance inv a.ledger.entries +ℤ a.result.total_cogs ≡ balance inv g.entries

tied_step : (x y c d e g : ℤ) → x ≡ y +ℤ neg d → e ≡ c +ℤ d → y +ℤ c ≡ g → x +ℤ e ≡ g
tied_step x y c d e g h k t =
    rw (h, k) (omega (int_laws, neg_parts d, ap (λ z. pos_part z) t, ap (λ z. neg_part z) t))

outbound_cost :
    (d : Sold) (l : SaleLineSpec) (soh : StockOnHand)
    → signed_cost (outbound_row d l soh) ≡ neg (cost_of soh.average_cost l.quantity)
unfolding is_inbound
outbound_cost d l soh = refl

is_set : (k : Option ℕ) → is_unset k ≡ false → (a : ℕ) × (k ≡ some a) × (truthy k ≡ some a)
is_set none h = cc
is_set (some a) h = (a, refl, ground (arith, h))

-- An accepted line has both accounts.
IsKeptOn-IsTied :
    (inv : ℕ) (p : Product) (d : Sold) (l : SaleLineSpec) (soh : StockOnHand)
    → (p.inventory_account ≡ some inv) × (p.cogs_account ≢ some inv)
    → is_unset p.inventory_account ≡ false
    → is_unset p.cogs_account ≡ false
    → IsTied inv p (outbound_row d l soh)
unfolding gl_accounts is_inbound
IsKeptOn-IsTied inv p d l soh (kept, apart) h k =
    let (a, is_a, key) = is_set p.inventory_account h in
    let (b, is_b, cogs_key) = is_set p.cogs_account k in
    record {
      inventory = key ∙ sym is_a ∙ kept;
      other = b;
      accounts = rw cogs_key refl;
      apart = λ e. apart (is_b ∙ ap some e);
    }

issuable-known :
    (s : Stock) (id : ℕ) (p : Product) → issuable s id ≡ some p → s.products id ≡ some p
issuable-known s id p h = elim (Option-cases (s.products id)) [
  | inl gone ↦ cc (rw (issuable, gone) at h)
  | inr (x, there) ↦ there ∙ stocked x p (rw (issuable, there) at h)
]
  where
    stocked :
        (x p : Product) → (if is_stockable x.type then some x else none) ≡ some p → some x ≡ some p
    stocked x p h = elim (Bool-cases (is_stockable x.type)) [
      | inl stocked_type ↦ rw stocked_type at h
      | inr other ↦ cc (rw other at h)
    ]

outbound_quantity :
    (q : ℤ) (n : ℕ) → q -ℤ pos n ≡ q +ℤ type_direction MovementType.outbound *ℤ pos n
unfolding type_direction
outbound_quantity q n = rw (minus_one_times n) (sym (+ℤ-neg q n))

row_moves :
    (u : Unicode) (d : Sold) (a b : Issued) (l : SaleLineSpec) (product : Product)
    (c : LineIssued u d a b l product)
    → c.row.quantity
      ≡ quantity_of (a.stock.on_hand l.product_id l.warehouse_id)
        +ℤ type_direction MovementType.outbound *ℤ pos l.quantity
row_moves u d a b l product c =
    c.quantity ∙ rw c.found (outbound_quantity c.soh.quantity l.quantity)

LineIssued-InStep :
    (inv : ℕ) (s : Stock) (g : Ledger) (u : Unicode) (d : Sold) (a b : Issued) (l : SaleLineSpec)
    (product : Product)
    → IsKeptOn inv s l
    → issuable s l.product_id ≡ some product
    → InStep inv s g a
    → LineIssued u d a b l product
    → InStep inv s g b
LineIssued-InStep inv s g u d a b l product kept known v c =
    let m = outbound_row d l c.soh in
    let total = cost_of c.soh.average_cost l.quantity in
    let products : b.stock.products ≡ a.stock.products = ap (λ z. z.products) c.stock in
    let tie : (p : Product) → b.stock.products l.product_id ≡ some p → IsTied inv p m = λ p there.
      subst (λ z. IsTied inv z m)
        (some-injective _ _ (
          sym (issuable-known s l.product_id product known)
          ∙ sym (ap (λ f. f l.product_id) (products ∙ v.products))
          ∙ there))
        (IsKeptOn-IsTied inv product d l c.soh (kept product known) c.inventory_set c.cogs_set) in
    let found : get_elem? b.stock.movements (length a.stock.movements) ≡ some m =
      ap (λ z. get_elem? z.movements (length a.stock.movements)) c.stock
      ∙ get_elem?-append_self a.stock.movements m in
    let (moves, keeps) =
      post_inventory_gl-ties u (cogs_command d (length a.stock.movements)) inv b.stock m a.ledger
        b.ledger c.gl v.ledger tie found refl refl c.posted in
    record {
      ledger = keeps;
      projection =
          subst IsProjection (sym c.stock)
            (write_stock-IsProjection m c.row a.stock v.projection (row_moves u d a b l product c));
      products = products ∙ v.products;
      tied =
          tied_step _ (balance inv a.ledger.entries) a.result.total_cogs total _ _
            (moves ∙ ap (λ x. balance inv a.ledger.entries +ℤ x) (outbound_cost d l c.soh)) c.cogs
            v.tied;
    }

back : (q : ℤ) (n : ℕ) → q -ℤ pos n +ℤ pos n ≡ q
back q n = omega int_laws

line_level :
    (u : Unicode) (d : Sold) (a b : Issued) (l : SaleLineSpec) (product : Product)
    → LineIssued u d a b l product
    → (p w : ℕ)
    → level b.stock p w +ℤ pos (if p == l.product_id && w == l.warehouse_id then l.quantity else 0)
      ≡ level a.stock p w
line_level u d a b l product c p w =
    let m = outbound_row d l c.soh in
    ap
      (λ z. level z p w +ℤ pos (if p == l.product_id && w == l.warehouse_id then l.quantity else 0))
      c.stock
    ∙ rw (quantity-write_stock m c.row a.stock p w)
        (elim (Bool-cases (p == l.product_id && w == l.warehouse_id)) [
          | inl here ↦
              let (ep, ew) = keys_of p l.product_id w l.warehouse_id here in
              rw (here, c.quantity, ep, ew, c.found) (back c.soh.quantity l.quantity)
          | inr there ↦ rw there (+ℤ_zero _)
        ])

pub issuable_same : (s t : Stock) (id : ℕ) → t.products ≡ s.products → issuable t id ≡ issuable s id
issuable_same s t id same =
    ap
      (λ f. elim (f id) as (λ _. Option Product) [
        | none ↦ none
        | some x ↦ if is_stockable x.type then some x else none
      ])
      same

nothing_taken :
    (s : Stock) (p w : ℕ) (l : SaleLineSpec) → issuable s l.product_id ≡ none → taken s p w l ≡ 0
nothing_taken s p w l none_there = rw (taken, none_there) (ground arith)

-- What issuing some lines keeps and does.
record LinesIssued (inv : ℕ) (s : Stock) (g : Ledger) (a b : Issued) (ls : List SaleLineSpec)
    : Type 0 where
  in_step : InStep inv s g b
  levels : (p w : ℕ) → level b.stock p w +ℤ pos (taken_by s p w ls) ≡ level a.stock p w

one_line :
    (inv : ℕ) (s : Stock) (g : Ledger) (u : Unicode) (d : Sold) (a b : Issued) (l : SaleLineSpec)
    → IsKeptOn inv s l
    → InStep inv s g a
    → issue_line u d a l ≡ ok b
    → InStep inv s g b × ((p w : ℕ) → level b.stock p w +ℤ pos (taken s p w l) ≡ level a.stock p w)
one_line inv s g u d a b l kept v h =
    let same = issuable_same s a.stock l.product_id v.products in
    elim (Option-cases (issuable s l.product_id)) [
      | inl gone ↦
          let e = ok-injective (rw (issue_line, same ∙ gone) at h) in
          (
            subst (InStep inv s g) e v,
            λ p w.
                rw (nothing_taken s p w l gone) (+ℤ_zero _ ∙ ap (λ z. level z.stock p w) (sym e)),
          )
      | inr (product, known) ↦
          let c = issue_product-LineIssued u d a b l product (rw (issue_line, same ∙ known) at h) in
          (
            LineIssued-InStep inv s g u d a b l product kept known v c,
            λ p w. rw (taken, known) (line_level u d a b l product c p w),
          )
    ]

regroup : (x : ℤ) (m n : ℕ) → x +ℤ pos (m + n) ≡ x +ℤ pos n +ℤ pos m
regroup x m n = omega int_laws

step_levels : (x y z : ℤ) (m n : ℕ) → x +ℤ pos n ≡ y → y +ℤ pos m ≡ z → x +ℤ pos (m + n) ≡ z
step_levels x y z m n h k = regroup x m n ∙ ap (λ t. t +ℤ pos m) h ∙ k

lines_issued :
    (inv : ℕ) (s : Stock) (g : Ledger) (u : Unicode) (d : Sold) (ls : List SaleLineSpec)
    (a b : Issued)
    → All (IsKeptOn inv s) ls
    → InStep inv s g a
    → each (issue_line u d) a ls ≡ ok b
    → LinesIssued inv s g a b ls
lines_issued inv s g u d [] a b kept v h =
    let e = ok-injective h in
    record {
      in_step = subst (InStep inv s g) e v;
      levels = λ p w. +ℤ_zero _ ∙ ap (λ z. level z.stock p w) (sym e);
    }
lines_issued inv s g u d (l ∷ ls) a b (kept, rest_kept) v h =
    let (m, e, r) = >>=-eq-ok (issue_line u d a l) (λ x. each (issue_line u d) x ls) h in
    let (keeps, level_of) = one_line inv s g u d a m l kept v e in
    let rest = lines_issued inv s g u d ls m b rest_kept keeps r in
    record {
      in_step = rest.in_step;
      levels = λ p w.
          step_levels _ _ _ (taken s p w l) (taken_by s p w ls) (rest.levels p w) (level_of p w);
    }

abbrev start_of : Stock → Ledger → Issued
start_of s g = record { stock = s; ledger = g; result = record { lines = []; total_cogs = pos 0 } }

-- Issuing the lines of a sale, where every stocked product on the lines has the inventory account
-- `inv` and another account for the cost of goods sold: each stock falls by the quantities that the
-- lines of stocked products list of it, the balance of the inventory account falls by the total cost
-- that is returned, the on-hand rows remain the projection of the log, and the ledger keeps its
-- invariant.
pub issue_sold_inventory-books :
    (inv : ℕ) (u : Unicode) (d : Sold) (lines : List SaleLineSpec) (s : Stock) (g : Ledger)
    (b : Issued)
    → IsLedger g
    → All (IsKeptOn inv s) lines
    → IsProjection s
    → issue_sold_inventory u d lines s g ≡ ok b
    → ((p w : ℕ) → level b.stock p w +ℤ pos (taken_by s p w lines) ≡ level s p w)
      × (balance inv b.ledger.entries +ℤ b.result.total_cogs ≡ balance inv g.entries)
      × IsProjection b.stock
      × IsLedger b.ledger
unfolding issue_sold_inventory
issue_sold_inventory-books inv u d lines s g b v w p h =
    let start : InStep inv s g (start_of s g) = record {
      ledger = v;
      projection = p;
      products = refl;
      tied = +ℤ_zero _;
    } in
    let out = lines_issued inv s g u d lines (start_of s g) b w start h in
    (out.levels, out.in_step.tied, out.in_step.projection, out.in_step.ledger)
