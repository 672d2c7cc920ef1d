-- ===== src/Inventory/Stock/Validity.antt =====
-- The rows stay valid, and what a movement needs to be accepted.
use gs_erp.Base.{
  ◌==◌, ◌&&◌, String, ◌≡◌, refl, sym, inl, inr, Option, none, some, arith, ℤ, pos, ◌+ℤ◌, ◌≤ℤ◌, ok,
  round_half_up, min_ℤ, ◌∙◌, ℕ, half_up, int_laws, ok-injective, neg, ◌*ℤ◌, subst, negsuc, ap,
  Bool-cases, suc, ltb_ℤ, ◌*◌, false, ltb_ℤ_of_le, +ℤ-neg, eq_of_parts, Bool, true, if◌then◌else◌,
}
use gs_erp.Inventory.Movement.{MovementSpec, IsMovement, direction}
use gs_erp.Inventory.Cost.{StockOnHand, on_inbound, on_outbound, value_at, new_average}
use gs_erp.Inventory.Cost.Average.{IsStock, on_inbound_bounds}
use gs_erp.Inventory.Stock.{
  Stock, RecordedMovement, StockMovement, write_stock, or_created, update_cost, delta, recorded,
  execute, with_inbound, inbound_cost,
}
use gs_erp.Inventory.Stock.Projection.{execute-Recorded}
use mathlib.Core.Option.{some-injective}

-- A unit cost that is given is not negative.
abbrev pub IsCost : Option ℤ → Type 0
IsCost none = Unit
IsCost (some c) = pos 0 ≤ℤ c

value_zero : (q : ℤ) → value_at q (pos 0) ≡ pos 0
unfolding round_half_up half_up ◌*ℤ◌
value_zero (pos n) = ap pos (omega arith)
value_zero (negsuc n) = let e : suc n * 0 ≡ 0 = omega arith in rw e

min_nonneg : (a b : ℤ) → pos 0 ≤ℤ a → pos 0 ≤ℤ b → pos 0 ≤ℤ min_ℤ a b
min_nonneg a b h k = ground arith

le_trans_ℤ : (a b c : ℤ) → a ≤ℤ b → b ≤ℤ c → a ≤ℤ c
le_trans_ℤ a b c h k = omega arith

pub or_created-IsStock :
    (o : Option StockOnHand) (uom : String)
    → ((soh : StockOnHand) → o ≡ some soh → IsStock soh)
    → IsStock (or_created o uom)
or_created-IsStock none uom h = record {
  quantity_nonneg = omega arith;
  cost_nonneg = omega arith;
  valued = sym (value_zero (pos 0));
}
or_created-IsStock (some soh) uom h = h soh refl

inbound_cost_lem :
    (soh : StockOnHand) (given : Option ℤ)
    → IsStock soh
    → IsCost given
    → IsCost (inbound_cost soh given) × ((inbound_cost soh given ≡ none) → soh.average_cost ≡ pos 0)
inbound_cost_lem soh none v c = (ground arith, λ e. ground arith)
inbound_cost_lem soh (some cost) v c = (c, λ e. cc)

unvalued :
    (soh : StockOnHand) (q : ℤ)
    → IsStock soh
    → pos 0 ≤ℤ q
    → soh.average_cost ≡ pos 0
    → IsStock (record soh { quantity = q })
unvalued soh q v h e = record {
  quantity_nonneg = h;
  cost_nonneg = v.cost_nonneg;
  valued = v.valued ∙ rw e (value_zero soh.quantity ∙ sym (value_zero q));
}

pub with_inbound-IsStock :
    (soh : StockOnHand) (n : ℕ) (cost : Option ℤ)
    → IsStock soh
    → IsCost cost
    → (cost ≡ none → soh.average_cost ≡ pos 0)
    → IsStock (record (with_inbound soh n cost) { quantity = soh.quantity +ℤ pos n })
unfolding on_inbound
with_inbound-IsStock soh n none v c free =
    unvalued soh (soh.quantity +ℤ pos n) v (omega (int_laws, v.quantity_nonneg)) (free refl)
with_inbound-IsStock soh n (some u) v c free =
    let b = on_inbound_bounds soh n u v c in
    record {
      quantity_nonneg = omega (int_laws, v.quantity_nonneg);
      cost_nonneg =
          le_trans_ℤ (pos 0) (min_ℤ soh.average_cost u) (new_average soh (pos n) u)
            (min_nonneg soh.average_cost u v.cost_nonneg c) b.0;
      valued = refl;
    }

inbound_row :
    (soh : StockOnHand) (spec : MovementSpec) (n : ℕ) (costed : StockOnHand × Option ℤ)
    → IsStock soh
    → IsCost spec.unit_cost
    → update_cost soh spec n (pos 1) ≡ ok costed
    → IsStock (record (costed.0) { quantity = soh.quantity +ℤ pos n }) × IsCost costed.1
unfolding update_cost
inbound_row soh spec n costed v c h =
    let cost = inbound_cost soh spec.unit_cost in
    let e : (with_inbound soh n cost, cost) ≡ costed = ok-injective h in
    let k = inbound_cost_lem soh spec.unit_cost v c in
    subst
      (λ (x : StockOnHand × Option ℤ).
        IsStock (record (x.0) { quantity = soh.quantity +ℤ pos n }) × IsCost x.1)
      e (with_inbound-IsStock soh n cost v k.0 k.1, k.0)

outbound_row :
    (soh : StockOnHand) (spec : MovementSpec) (n : ℕ) (costed : StockOnHand × Option ℤ)
    → IsStock soh
    → pos 0 ≤ℤ soh.quantity +ℤ neg (pos n)
    → update_cost soh spec n (negsuc 0) ≡ ok costed
    → IsStock (record (costed.0) { quantity = soh.quantity +ℤ neg (pos n) }) × IsCost costed.1
unfolding update_cost on_outbound
outbound_row soh spec n costed v enough h = elim (Bool-cases (ltb_ℤ (pos 0) soh.average_cost)) [
  | inl valued ↦
      let short : ltb_ℤ soh.quantity (pos n) ≡ false =
        ltb_ℤ_of_le soh.quantity (pos n) (omega (int_laws, rw (+ℤ-neg soh.quantity n) at enough)) in
      let e = ok-injective (rw (valued, short) at h) in
      subst keeps e (
        record {
          quantity_nonneg = enough;
          cost_nonneg = v.cost_nonneg;
          valued = rw (+ℤ-neg soh.quantity n);
        },
        v.cost_nonneg,
      )
  | inr free ↦
      let e = ok-injective (rw free at h) in
      let none_left : soh.average_cost ≡ pos 0 = eq_of_parts _ _ (ground (arith, v.cost_nonneg)) in
      subst keeps e (unvalued soh (soh.quantity +ℤ neg (pos n)) v enough none_left, tt)
]
  where
    keeps : StockOnHand × Option ℤ → Type 0
    keeps x = IsStock (record (x.0) { quantity = soh.quantity +ℤ neg (pos n) }) × IsCost x.1

-- The row after its cost update and with its new quantity.
update_cost-IsStock :
    (soh : StockOnHand) (spec : MovementSpec) (costed : StockOnHand × Option ℤ)
    → IsStock soh
    → IsMovement spec
    → IsCost spec.unit_cost
    → pos 0 ≤ℤ soh.quantity +ℤ delta spec
    → update_cost soh spec spec.quantity.value (direction spec) ≡ ok costed
    → IsStock (record (costed.0) { quantity = soh.quantity +ℤ delta spec }) × IsCost costed.1
update_cost-IsStock soh spec costed v m c enough h = elim m.directed [
  | inl into ↦ rw into (inbound_row soh spec spec.quantity.value costed v c (rw into at h))
  | inr out ↦
      rw out (outbound_row soh spec spec.quantity.value costed v (rw out at enough) (rw out at h))
]

-- Every row of the projection is valid.
abbrev pub AllStock : Stock → Type 0
AllStock s = (p w : ℕ) (soh : StockOnHand) → s.on_hand p w ≡ some soh → IsStock soh

written_row :
    (b : Bool) (x : StockOnHand) (o : Option StockOnHand) (soh : StockOnHand)
    → IsStock x
    → (o ≡ some soh → IsStock soh)
    → (if b then some x else o) ≡ some soh
    → IsStock soh
written_row true x o soh new keep e = subst IsStock (some-injective _ _ e) new
written_row false x o soh new keep e = keep e

pub write_stock-AllStock :
    (m : StockMovement) (row : StockOnHand) (s : Stock)
    → IsStock row
    → AllStock s
    → AllStock (write_stock m row s)
write_stock-AllStock m row s new v p w soh found =
    written_row (p == m.product_id && w == m.warehouse_id) row (s.on_hand p w) soh new (v p w soh)
      found

-- An accepted movement of a valid spec, whose given cost, if there is one, is not negative, keeps
-- every row valid, if all rows were: no quantity or cost is negative, and the inventory value is the
-- quantity at average cost. The cost that is stamped on the movement is then not negative.
pub execute-AllStock :
    (spec : MovementSpec) (s t : Stock) (r : RecordedMovement)
    → IsMovement spec
    → IsCost spec.unit_cost
    → AllStock s
    → execute spec s ≡ ok (t, r)
    → AllStock t × IsCost r.unit_cost
execute-AllStock spec s t r m c v h =
    let a = execute-Recorded spec s t r h in
    let old : IsStock a.soh = subst IsStock (sym a.is_row) (
      or_created-IsStock (s.on_hand spec.product_id spec.warehouse_id) spec.quantity.uom_code
        (v spec.product_id spec.warehouse_id)) in
    let (new, cost) = update_cost-IsStock a.soh spec a.costed old m c a.enough a.is_cost in
    let e : t ≡ (recorded spec a.soh s a.costed).0 = sym (ap (λ x. x.0) a.end) in
    let f : r ≡ (recorded spec a.soh s a.costed).1 = sym (ap (λ x. x.1) a.end) in
    (
      λ p w soh found.
          written_row (p == spec.product_id && w == spec.warehouse_id) _ (s.on_hand p w) soh new
            (v p w soh) (rw e at found),
      rw f cost,
    )
