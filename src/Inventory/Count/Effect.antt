-- ===== src/Inventory/Count/Effect.antt =====
-- A finalised count moves the stock from what was expected to what was counted.
use gs_erp.Base.{
  subst, ℕ, String, ◌≡◌, refl, sym, ap, ◌∙◌, inl, inr, false, Option, some, List, [], ◌∷◌, arith,
  ◌==◌, if◌then◌else◌, ==_refl, Bool-cases, ℤ, pos, ◌+ℤ◌, ◌-ℤ◌, int_laws, +ℤ_zero, eqb_ℤ_iff, ok,
  err, guard, >>=-eq-ok, lookup, lookup-insert, stock_count_already_finalised, each_inv,
  ok-injective,
}
use gs_erp.Core.Date.{Date}
use gs_erp.Core.Currency.{Unicode}
use gs_erp.Inventory.Stock.Projection.{IsProjection}
use gs_erp.Inventory.Transfer.Effect.{level}
use gs_erp.Inventory.Adjustment.{
  AdjustmentLineSpec, make_adjustment_line, AdjustmentSpec, make_adjustment, Adjustments, Adjusted,
  PostedAdjustment, adjust_line, record_adjustment,
}
use gs_erp.Inventory.Adjustment.Effect.{
  line_change, lines_change, record_adjustment-moves, record_adjustment-Posted,
  adjust_line-LineAdjusted,
}
use gs_erp.Inventory.Count.{
  CountLineSpec, CountSpec, StockCount, Counts, FinaliseStockCountCommand, FinalisedStockCount,
  variance, has_variance, correction_line, variance_lines, correction_of, correct, is_draft,
  finalise_stock_count,
}

-- The quantities of a product on the lines of a count.
abbrev pub quantity_on : (CountLineSpec → ℤ) → ℕ → List CountLineSpec → ℤ
quantity_on f p [] = pos 0
quantity_on f p (l ∷ ls) = (if p == l.product_id then f l else pos 0) +ℤ quantity_on f p ls

abbrev pub expected : ℕ → List CountLineSpec → ℤ
expected p ls = quantity_on (λ l. l.expected_quantity) p ls

abbrev pub counted : ℕ → List CountLineSpec → ℤ
counted p ls = quantity_on (λ l. l.counted_quantity) p ls

make_adjustment_line_lem : (l m : AdjustmentLineSpec) → make_adjustment_line l ≡ ok m → m ≡ l
unfolding make_adjustment_line
make_adjustment_line_lem l m h = ground arith

make_adjustment_lem : (a b : AdjustmentSpec) → make_adjustment a ≡ ok b → b ≡ a
unfolding make_adjustment
make_adjustment_lem a b h = ground arith

line_variance :
    (warehouse p w : ℕ) (l : CountLineSpec)
    → line_change warehouse p w (correction_line l) ≡ (
        if w == warehouse
        then (if p == l.product_id then l.counted_quantity else pos 0)
          -ℤ (if p == l.product_id then l.expected_quantity else pos 0)
        else pos 0)
unfolding variance
line_variance warehouse p w l = grind int_laws

no_variance :
    (warehouse p w : ℕ) (l : CountLineSpec)
    → has_variance l ≡ false
    → line_change warehouse p w (correction_line l) ≡ pos 0
no_variance warehouse p w l h =
    let zero_variance : variance l ≡ pos 0 = (eqb_ℤ_iff (variance l) (pos 0)).0 (ground arith) in
    rw zero_variance (ground arith)

zero_left : (a : ℤ) → a ≡ pos 0 +ℤ a
zero_left a = omega int_laws

both :
    (w v : ℕ) (a b c d : ℤ)
    → (if w == v then a -ℤ b else pos 0) +ℤ (if w == v then c -ℤ d else pos 0)
      ≡ (if w == v then (a +ℤ c) -ℤ (b +ℤ d) else pos 0)
both w v a b c d = elim (Bool-cases (w == v)) [
  | inl here ↦ rw here (omega int_laws)
  | inr there ↦ rw there (omega int_laws)
]

none_there : (w v : ℕ) → pos 0 ≡ (if w == v then pos 0 -ℤ pos 0 else pos 0)
none_there w v = grind int_laws

variance_lines-change :
    (warehouse p w : ℕ) (ls : List CountLineSpec) (out : List AdjustmentLineSpec)
    → variance_lines ls ≡ ok out
    → lines_change warehouse p w out
      ≡ (if w == warehouse then counted p ls -ℤ expected p ls else pos 0)
unfolding variance_lines
variance_lines-change warehouse p w [] out h = rw (sym (ok-injective h)) (none_there w warehouse)
variance_lines-change warehouse p w (l ∷ ls) out h = elim (Bool-cases (has_variance l)) [
  | inl some_variance ↦
      let (x, e1, h1) =
        >>=-eq-ok (make_adjustment_line (correction_line l)) _ (rw some_variance at h) in
      let (xs, e2, h2) = >>=-eq-ok (variance_lines ls) _ h1 in
      let is_out : out ≡ correction_line l ∷ xs =
        sym (ok-injective h2)
        ∙ ap (λ z. z ∷ xs) (make_adjustment_line_lem (correction_line l) x e1) in
      rw (is_out, line_variance warehouse p w l, variance_lines-change warehouse p w ls xs e2)
        (both w warehouse _ _ _ _)
  | inr clean ↦
      let step = sym (no_variance warehouse p w l clean) ∙ line_variance warehouse p w l in
      variance_lines-change warehouse p w ls out (rw clean at h)
      ∙ zero_left _
      ∙ ap (λ z. z +ℤ (if w == warehouse then counted p ls -ℤ expected p ls else pos 0)) step
      ∙ both w warehouse _ _ _ _
]

-- With no currency an adjustment leaves the ledger as it was.
adjust_line-ledger :
    (u : Unicode) (date : Date) (warehouse pk : ℕ) (a b : Adjusted) (l : AdjustmentLineSpec)
    → adjust_line u "" date warehouse pk a l ≡ ok b
    → b.ledger ≡ a.ledger
adjust_line-ledger u date warehouse pk a b l h =
    let c = adjust_line-LineAdjusted u "" date warehouse pk a b l h in sym (ok-injective c.gl)

record_adjustment-ledger :
    (u : Unicode) (spec : AdjustmentSpec) (s t : Adjustments) (r : PostedAdjustment)
    → spec.currency_code ≡ ""
    → record_adjustment u spec s ≡ ok (t, r)
    → t.ledger ≡ s.ledger
record_adjustment-ledger u spec s t r free h =
    let a = record_adjustment-Posted u spec s t r h in
    let date = spec.adjustment_date in
    let wh = spec.warehouse_id in
    a.ledger
    ∙ each_inv (λ m. m.ledger ≡ s.ledger) (adjust_line u spec.currency_code date wh s.next_pk)
        (λ m l n keep e.
          adjust_line-ledger u date wh s.next_pk m n l
            (subst (λ z. adjust_line u z date wh s.next_pk m l ≡ ok n) free e)
          ∙ keep)
        _ spec.lines a.adjusted refl a.is_adjusted

-- What a correction by the variances `c` does to the stock and the ledger.
record Corrected (c : CountSpec) (s t : Adjustments) : Type 0 where
  moves :
      (p w : ℕ)
      → level t.stock p w
        ≡ level s.stock p w
          +ℤ (if w == c.warehouse_id then counted p c.lines -ℤ expected p c.lines else pos 0)
  projection : IsProjection t.stock
  ledger : t.ledger ≡ s.ledger

correct-Corrected :
    (u : Unicode) (reference : String) (c : CountSpec) (ls : List AdjustmentLineSpec)
    (s t : Adjustments) (r : Option PostedAdjustment)
    → IsProjection s.stock
    → variance_lines c.lines ≡ ok ls
    → correct u reference c ls s ≡ ok (t, r)
    → Corrected c s t
correct-Corrected u reference c [] s t r inv vs h =
    let same : t ≡ s = sym (ap (λ z. z.0) (ok-injective h)) in
    record {
      moves = λ p w.
          ap (λ z. level z.stock p w) same
          ∙ sym (+ℤ_zero _)
          ∙ ap (λ x. level s.stock p w +ℤ x)
              (variance_lines-change c.warehouse_id p w c.lines [] vs);
      projection = rw same inv;
      ledger = ap (λ z. z.ledger) same;
    }
correct-Corrected u reference c (l ∷ ls) s t r inv vs h =
    let (x, e1, h1) = >>=-eq-ok (make_adjustment (correction_of reference c (l ∷ ls))) _ h in
    let is_spec = make_adjustment_lem _ x e1 in
    let ((after, posted), e2, h2) = >>=-eq-ok (record_adjustment u x s) _ h1 in
    let same : t ≡ after = sym (ap (λ z. z.0) (ok-injective h2)) in
    let done = subst (λ z. record_adjustment u z s ≡ ok (after, posted)) is_spec e2 in
    let (moves, keeps) = record_adjustment-moves u _ s after posted inv done in
    record {
      moves = λ p w.
          ap (λ z. level z.stock p w) same
          ∙ moves p w
          ∙ ap (λ x. level s.stock p w +ℤ x)
              (variance_lines-change c.warehouse_id p w c.lines (l ∷ ls) vs);
      projection = rw same keeps;
      ledger = ap (λ z. z.ledger) same ∙ record_adjustment-ledger u _ s after posted refl done;
    }

-- A count that is finalised moves the stock of each product in its warehouse by what was counted
-- less what was expected, also where a product stands on several lines, and leaves every other
-- warehouse and the ledger as they were; the on-hand rows remain the projection of the log, and
-- finalising the count again is refused.
pub finalise_stock_count-moves :
    (u : Unicode) (command again : FinaliseStockCountCommand) (count : StockCount) (s t : Counts)
    (r : FinalisedStockCount)
    → IsProjection s.adjustments.stock
    → again.count_id ≡ command.count_id
    → lookup command.count_id s.counts ≡ some count
    → finalise_stock_count u command s ≡ ok (t, r)
    → ((p w : ℕ)
        → level t.adjustments.stock p w
          ≡ level s.adjustments.stock p w
            +ℤ (if w == count.spec.warehouse_id
                then counted p count.spec.lines -ℤ expected p count.spec.lines
                else pos 0))
      × IsProjection t.adjustments.stock
      × (t.adjustments.ledger ≡ s.adjustments.ledger)
      × (finalise_stock_count u again t ≡ err stock_count_already_finalised)
unfolding finalise_stock_count
finalise_stock_count-moves u command again count s t r inv same found h =
    let (u1, e1, h1) =
      >>=-eq-ok (guard (is_draft count.status) stock_count_already_finalised) _ (rw found at h) in
    let (ls, e2, h2) = >>=-eq-ok (variance_lines count.spec.lines) _ h1 in
    let ((after, posted), e3, h3) =
      >>=-eq-ok (correct u command.adjustment_reference count.spec ls s.adjustments) _ h2 in
    let e = sym (ok-injective h3) in
    let a =
      correct-Corrected u command.adjustment_reference count.spec ls s.adjustments after posted inv
        e2 e3 in
    (
      λ p w. ap (λ z. level z.0.adjustments.stock p w) e ∙ a.moves p w,
      subst (λ z. IsProjection z.0.adjustments.stock) (sym e) a.projection,
      ap (λ z. z.0.adjustments.ledger) e ∙ a.ledger,
      rw
          (
            same,
            ap (λ z. z.0.counts) e,
            lookup-insert command.count_id command.count_id _ s.counts,
            ==_refl command.count_id,
          )
          refl,
    )
