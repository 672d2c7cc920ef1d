-- ===== src/Inventory/Adjustment/Books.antt =====
-- An adjustment keeps the inventory account and the costs of the movements in step.
use gs_erp.Base.{
  subst, ℕ, String, ◌≡◌, refl, sym, ap, ◌∙◌, false, some, List, [], ◌∷◌, ◌++◌, length, ℤ, pos,
  pos_part, neg_part, ◌+ℤ◌, int_laws, ok, >>=-eq-ok, is_empty_text, ok-injective, get_elem?,
  get_elem?-append_self, All, each_all,
}
use gs_erp.Core.Date.{Date}
use gs_erp.Core.Currency.{Unicode}
use gs_erp.Finance.Ledger.{Ledger}
use gs_erp.Finance.Ledger.Sums.{balance}
use gs_erp.Finance.Ledger.History.{IsLedger}
use gs_erp.Inventory.Stock.{Product, StockMovement, Stock, movement_row}
use gs_erp.Inventory.Stock.Projection.{execute-Recorded}
use gs_erp.Inventory.Gl.{post_inventory_gl}
use gs_erp.Inventory.Gl.Books.{IsSetUp, IsTied, IsSetUp-IsTied, signed_cost, post_inventory_gl-ties}
use gs_erp.Inventory.Adjustment.{
  AdjustmentLineSpec, AdjustmentSpec, Adjustments, PostedAdjustment, Adjusted, gl_command,
  adjust_line, record_adjustment,
}
use gs_erp.Inventory.Adjustment.Effect.{spec_of, adjust_line-LineAdjusted, record_adjustment-Posted}

-- The signed costs of a log.
abbrev pub cost_sum : List StockMovement → ℤ
cost_sum [] = pos 0
cost_sum (m ∷ ms) = signed_cost m +ℤ cost_sum ms

cost_sum-append :
    (ms : List StockMovement) (m : StockMovement)
    → cost_sum (ms ++ m ∷ []) ≡ cost_sum ms +ℤ signed_cost m
cost_sum-append [] m = omega int_laws
cost_sum-append (n ∷ ms) m = rw (cost_sum-append ms m) (omega int_laws)

-- The product of a line, where it is known, keeps its stock on the inventory account.
abbrev pub IsLineSetUp : ℕ → Stock → AdjustmentLineSpec → Type 0
IsLineSetUp inv s l = (p : Product) → s.products l.product_id ≡ some p → IsSetUp inv p

-- What the lines so far keep: since `s`, the inventory account has moved by the costs of the log.
record InStep (inv : ℕ) (s : Stock) (g : Ledger) (a : Adjusted) : Type 0 where
  ledger : IsLedger a.ledger
  products : a.stock.products ≡ s.products
  tied :
      balance inv a.ledger.entries +ℤ cost_sum s.movements
      ≡ balance inv g.entries +ℤ cost_sum a.stock.movements

tie_step : (x y m n d : ℤ) → x ≡ y +ℤ d → n ≡ m +ℤ d → (c f : ℤ) → y +ℤ c ≡ f +ℤ m → x +ℤ c ≡ f +ℤ n
tie_step x y m n d h k c f t =
    rw (h, k) (omega (int_laws, ap (λ z. pos_part z) t, ap (λ z. neg_part z) t))

adjust_line-InStep :
    (u : Unicode) (inv : ℕ) (code : String) (date : Date) (warehouse pk : ℕ) (s : Stock)
    (g : Ledger) (a b : Adjusted) (l : AdjustmentLineSpec)
    → is_empty_text code ≡ false
    → IsLineSetUp inv s l
    → InStep inv s g a
    → adjust_line u code date warehouse pk a l ≡ ok b
    → InStep inv s g b
adjust_line-InStep u inv code date warehouse pk s g a b l some_code kept v h =
    let c = adjust_line-LineAdjusted u code date warehouse pk a b l h in
    let x = execute-Recorded (spec_of warehouse pk l) a.stock b.stock c.recorded c.executed in
    let row = movement_row (spec_of warehouse pk l) x.costed.1 in
    let log : b.stock.movements ≡ a.stock.movements ++ row ∷ [] =
      sym (ap (λ z. z.0.movements) x.end) in
    let same : b.stock.products ≡ a.stock.products = sym (ap (λ z. z.0.products) x.end) in
    let key : c.recorded.movement_id ≡ length a.stock.movements =
      sym (ap (λ z. z.1.movement_id) x.end) in
    let found : get_elem? b.stock.movements c.recorded.movement_id ≡ some row =
      rw (log, key) (get_elem?-append_self a.stock.movements row) in
    let (out, e, h1) =
      >>=-eq-ok (post_inventory_gl u (gl_command code date c.recorded.movement_id) b.stock a.ledger)
        _ (rw some_code at c.gl) in
    let tie : (p : Product) → b.stock.products l.product_id ≡ some p → IsTied inv p row = λ p known.
      IsSetUp-IsTied inv p row
        (kept p (sym (ap (λ f. f l.product_id) (same ∙ v.products)) ∙ known)) in
    let (moves, keeps) =
      post_inventory_gl-ties u (gl_command code date c.recorded.movement_id) inv b.stock row
        a.ledger out.0 out.1 v.ledger tie found refl refl e in
    let ledger : out.0 ≡ b.ledger = ok-injective h1 in
    record {
      ledger = subst IsLedger ledger keeps;
      products = same ∙ v.products;
      tied =
          tie_step _ (balance inv a.ledger.entries) (cost_sum a.stock.movements) _ (signed_cost row)
            (ap (λ z. balance inv z.entries) (sym ledger) ∙ moves)
            (ap cost_sum log ∙ cost_sum-append a.stock.movements row) _ _ v.tied;
    }

-- An adjustment that is posted with a currency keeps the ledger's invariant, and the balance of the
-- inventory account moves by exactly the signed costs of the movements that it logs. Every product
-- on its lines has that account as its inventory account, and has a purchase account and an account
-- for the cost of goods sold, which are both other accounts.
pub record_adjustment_in_step :
    (u : Unicode) (inv : ℕ) (spec : AdjustmentSpec) (s t : Adjustments) (r : PostedAdjustment)
    → is_empty_text spec.currency_code ≡ false
    → IsLedger s.ledger
    → All (IsLineSetUp inv s.stock) spec.lines
    → record_adjustment u spec s ≡ ok (t, r)
    → (balance inv t.ledger.entries +ℤ cost_sum s.stock.movements
        ≡ balance inv s.ledger.entries +ℤ cost_sum t.stock.movements)
      × IsLedger t.ledger
record_adjustment_in_step u inv spec s t r some_code v w h =
    let a = record_adjustment-Posted u spec s t r h in
    let code = spec.currency_code in
    let date = spec.adjustment_date in
    let wh = spec.warehouse_id in
    let kept =
      each_all (InStep inv s.stock s.ledger) (IsLineSetUp inv s.stock)
        (adjust_line u code date wh s.next_pk)
        (λ m l n set_up keep e.
          adjust_line-InStep u inv code date wh s.next_pk s.stock s.ledger m n l some_code set_up
            keep e)
        (record { stock = s.stock; ledger = s.ledger; movement_ids = [] }) spec.lines a.adjusted w
        (record { ledger = v; products = refl; tied = refl }) a.is_adjusted in
    rw (a.stock, a.ledger) (kept.tied, kept.ledger)
