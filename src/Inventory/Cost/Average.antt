-- ===== src/Inventory/Cost/Average.antt =====
-- The weighted average of an inbound movement.
use gs_erp.Base.{
  ℕ, zero, suc, ◌+◌, ◌*◌, ◌≤◌, ◌<◌, String, ◌≡◌, arith, ℤ, pos, negsuc, ◌+ℤ◌, ◌*ℤ◌, ◌≤ℤ◌, min_ℤ,
  max_ℤ, half_up, round_half_up, half_up-le, half_up_nearest, le-half_up, leb_ℤ_of_lt,
  min_max_bounds, refl, pos-+ℤ, ap, ◌∙◌, subst, sym,
}
use native.Mathlib.Nat.{mul-le-mul_left}
use gs_erp.Inventory.Cost.{StockOnHand, new_average, value_at, on_inbound}

weighted_bounds :
    (q a n u lo hi : ℕ)
    → 0 < q + n
    → lo ≤ a
    → lo ≤ u
    → a ≤ hi
    → u ≤ hi
    → (lo ≤ half_up (q * a + n * u) (q + n)) × (half_up (q * a + n * u) (q + n) ≤ hi)
weighted_bounds q a n u lo hi h la lu ah uh = (
  le-half_up (q * a + n * u) (q + n) lo h
      (omega (arith, mul-le-mul_left q la, mul-le-mul_left n lu)),
  half_up-le (q * a + n * u) (q + n) hi h
      (omega (arith, mul-le-mul_left q ah, mul-le-mul_left n uh)),
)

new_average_pos :
    (q n a u : ℕ) (uom : String) (value : ℤ)
    → 0 < q
    → new_average
        (record { quantity = pos q; uom_code = uom; average_cost = pos a; inventory_value = value })
        (pos n)
        (pos u)
      ≡ pos (half_up (q * a + n * u) (q + n))
unfolding new_average ◌*ℤ◌ round_half_up
new_average_pos q n a u uom value h =
    rw (leb_ℤ_of_lt (pos q) (pos 0) (omega arith), pos-+ℤ (q * a) (n * u), pos-+ℤ q n)

-- A row of stock that can be: nothing is negative, and its value is its quantity at average cost.
pub record IsStock (s : StockOnHand) : Type 0 where
  pub quantity_nonneg : pos 0 ≤ℤ s.quantity
  pub cost_nonneg : pos 0 ≤ℤ s.average_cost
  pub valued : s.inventory_value ≡ value_at s.quantity s.average_cost

average_bounds :
    (q a u : ℤ) (n : ℕ) (uom : String) (value : ℤ)
    → pos 0 ≤ℤ q
    → pos 0 ≤ℤ a
    → pos 0 ≤ℤ u
    → let new =
        new_average
          (record { quantity = q; uom_code = uom; average_cost = a; inventory_value = value })
          (pos n)
          u in
      (min_ℤ a u ≤ℤ new) × (new ≤ℤ max_ℤ a u)
unfolding new_average
average_bounds (pos zero) a u n uom value hq ha hu = (ground arith, ground arith)
average_bounds (pos (suc q)) (pos a) (pos u) n uom value hq ha hu =
    rw (new_average_pos (suc q) n a u uom value (omega arith)) (
      min_max_bounds (pos a) (pos u) (pos (half_up (suc q * a + n * u) (suc q + n)))
        (λ le. omega (arith, weighted_bounds (suc q) a n u a u))
        (λ le. omega (arith, weighted_bounds (suc q) a n u u a)))
average_bounds (pos (suc q)) (negsuc a) u n uom value hq ha hu = absurd (omega arith)
average_bounds (pos (suc q)) (pos a) (negsuc u) n uom value hq ha hu = absurd (omega arith)
average_bounds (negsuc q) a u n uom value hq ha hu = absurd (omega arith)

-- After an inbound movement on a valid row at a cost that is not negative the average cost lies
-- between the old average and the incoming cost.
pub on_inbound_bounds :
    (s : StockOnHand) (n : ℕ) (u : ℤ)
    → IsStock s
    → pos 0 ≤ℤ u
    → let t = on_inbound s (pos n) u in
      (min_ℤ s.average_cost u ≤ℤ t.average_cost) × (t.average_cost ≤ℤ max_ℤ s.average_cost u)
unfolding on_inbound
on_inbound_bounds s n u v hu =
    average_bounds s.quantity s.average_cost u n s.uom_code s.inventory_value v.quantity_nonneg
      v.cost_nonneg hu

new_average_weighted :
    (q a n u : ℕ) (uom : String) (value : ℤ)
    → 0 < n
    → (avg : ℕ) × (new_average
          (record {
            quantity = pos q;
            uom_code = uom;
            average_cost = pos a;
            inventory_value = value;
          })
          (pos n)
          (pos u)
        ≡ pos avg)
      × (2 * (avg * (q + n)) ≤ 2 * (q * a + n * u) + (q + n))
      × (2 * (q * a + n * u) < 2 * (avg * (q + n)) + (q + n))
unfolding new_average
new_average_weighted zero a n u uom value h = (u, refl, grind arith, grind arith)
new_average_weighted (suc q) a n u uom value h =
    let (low, high) = half_up_nearest (suc q * a + n * u) (suc q + n) (omega arith) in
    (
      half_up (suc q * a + n * u) (suc q + n),
      new_average_pos (suc q) n a u uom value (omega arith),
      low,
      high,
    )

value_at_nearest :
    (q c : ℕ)
    → (v : ℕ) × (value_at (pos q) (pos c) ≡ pos v)
      × (2 * (v * 10_000) ≤ 2 * (q * c) + 10_000)
      × (2 * (q * c) < 2 * (v * 10_000) + 10_000)
unfolding ◌*ℤ◌ round_half_up
value_at_nearest q c =
    let (low, high) = half_up_nearest (q * c) 10_000 (omega arith) in
    (half_up (q * c) 10_000, refl, low, high)

-- An inbound movement of a positive quantity `n` at a cost `u` that is not negative, on a row that
-- holds a quantity `q` at an average cost `a`, neither negative: the new average cost is the count of
-- 0.0001 nearest to the average of both costs weighted by their quantities, a tie going up, and lies
-- between them; the row is valued at the nearest count to the new quantity at that average.
pub on_inbound_nearest :
    (s : StockOnHand) (q a n u : ℕ)
    → s.quantity ≡ pos q
    → s.average_cost ≡ pos a
    → 0 < n
    → let t = on_inbound s (pos n) (pos u) in
      (avg : ℕ) × (v : ℕ) × (t.average_cost ≡ pos avg)
      × (2 * (avg * (q + n)) ≤ 2 * (q * a + n * u) + (q + n))
      × (2 * (q * a + n * u) < 2 * (avg * (q + n)) + (q + n))
      × (min_ℤ (pos a) (pos u) ≤ℤ t.average_cost)
      × (t.average_cost ≤ℤ max_ℤ (pos a) (pos u))
      × (t.inventory_value ≡ pos v)
      × (2 * (v * 10_000) ≤ 2 * ((q + n) * avg) + 10_000)
      × (2 * ((q + n) * avg) < 2 * (v * 10_000) + 10_000)
unfolding on_inbound
on_inbound_nearest s q a n u has_q has_a h =
    let row : StockOnHand = record {
      quantity = pos q;
      uom_code = s.uom_code;
      average_cost = pos a;
      inventory_value = s.inventory_value;
    } in
    let same : s ≡ row =
      ap (λ z. record s { quantity = z }) has_q
      ∙ ap (λ z. record s { quantity = pos q; average_cost = z }) has_a in
    let (avg, is_avg, low, high) = new_average_weighted q a n u s.uom_code s.inventory_value h in
    let (v, is_v, below, above) = value_at_nearest (q + n) avg in
    let (least, most) =
      average_bounds (pos q) (pos a) (pos u) n s.uom_code s.inventory_value (omega arith)
        (omega arith) (omega arith) in
    let average : new_average s (pos n) (pos u) ≡ pos avg =
      ap (λ z. new_average z (pos n) (pos u)) same ∙ is_avg in
    (
      avg,
      v,
      average,
      low,
      high,
      subst (λ z. min_ℤ (pos a) (pos u) ≤ℤ z) (is_avg ∙ sym average) least,
      subst (λ z. z ≤ℤ max_ℤ (pos a) (pos u)) (is_avg ∙ sym average) most,
      ap (λ z. value_at (z +ℤ pos n) (new_average s (pos n) (pos u))) has_q
          ∙ ap (value_at (pos q +ℤ pos n)) average
          ∙ ap (λ z. value_at z (pos avg)) (pos-+ℤ q n)
          ∙ is_v,
      below,
      above,
    )
