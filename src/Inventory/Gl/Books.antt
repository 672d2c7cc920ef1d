-- ===== src/Inventory/Gl/Books.antt =====
-- The inventory account follows the costs of the movements.
use gs_erp.Base.{
  subst, ℕ, ◌<◌, ◌≡◌, refl, sym, ap, ◌∙◌, ◌≢◌, inl, inr, false, ◌&&◌, Option, none, some, arith,
  ◌==◌, if◌then◌else◌, ==_refl, Bool-cases, Option-cases, ℤ, pos, ◌+ℤ◌, neg, int_laws, +ℤ_zero, ok,
  or_raise, >>=-eq-ok, total, does_not_exist, ok-injective, get_elem?, or_raise-eq-ok,
}
use gs_erp.Core.Currency.{Currency, Unicode, make_currency}
use gs_erp.Finance.Ledger.{Ledger}
use gs_erp.Finance.Ledger.Sums.{balance}
use gs_erp.Finance.Ledger.History.{IsLedger}
use gs_erp.Finance.Posting.{post_pair, post_pair-moves, moved}
use gs_erp.Inventory.Movement.{is_transfer}
use gs_erp.Inventory.Stock.{Product, StockMovement, Stock}
use gs_erp.Inventory.Gl.{
  PostInventoryGlCommand, InventoryGlResult, truthy, is_inbound, costs, gl_accounts, gl_pair,
  post_accounts, post_movement, post_inventory_gl,
}

-- A product whose stock is kept on the inventory account `inv`, and whose other two accounts are
-- not that account.
pub record IsSetUp (inv : ℕ) (p : Product) : Type 0 where
  pub inv_key : 0 < inv
  pub cogs : ℕ
  pub purchase : ℕ
  pub is_inventory : p.inventory_account ≡ some inv
  pub is_cogs : p.cogs_account ≡ some cogs
  pub is_purchase : p.purchase_account ≡ some purchase
  pub cogs_key : 0 < cogs
  pub purchase_key : 0 < purchase
  pub cogs_apart : cogs ≢ inv
  pub purchase_apart : purchase ≢ inv

-- The recorded cost of a movement, with the sign of its direction.
abbrev pub signed_cost : StockMovement → ℤ
signed_cost m = elim (costs m) [
  | none ↦ pos 0
  | some total ↦ if is_inbound m then total else neg total
]

truthy_key : (k : ℕ) → 0 < k → truthy (some k) ≡ some k
truthy_key k h = ground arith

apart_test : (a b : ℕ) → a ≢ b → (a == b) ≡ false
apart_test a b h = ground arith

-- The entry of the movement goes between the inventory account `inv` and another account.
pub record IsTied (inv : ℕ) (p : Product) (m : StockMovement) : Type 0 where
  pub inventory : truthy p.inventory_account ≡ some inv
  pub other : ℕ
  pub accounts :
      gl_accounts none p m inv ≡ some (if is_inbound m then (inv, other) else (other, inv))
  pub apart : other ≢ inv

pub IsSetUp-IsTied : (inv : ℕ) (p : Product) (m : StockMovement) → IsSetUp inv p → IsTied inv p m
unfolding gl_accounts
IsSetUp-IsTied inv p m v = elim (Bool-cases (is_inbound m)) [
  | inl into ↦ record {
    inventory = rw v.is_inventory (truthy_key inv v.inv_key);
    other = v.purchase;
    accounts = rw (into, v.is_purchase, truthy_key v.purchase v.purchase_key) refl;
    apart = v.purchase_apart;
  }
  | inr out ↦ record {
    inventory = rw v.is_inventory (truthy_key inv v.inv_key);
    other = v.cogs;
    accounts = rw (out, v.is_cogs, truthy_key v.cogs v.cogs_key) refl;
    apart = v.cogs_apart;
  }
]

post_accounts-moves :
    (c : PostInventoryGlCommand) (currency : Currency) (total : ℤ) (debit credit : ℕ) (s t : Ledger)
    (r : Option InventoryGlResult)
    → IsLedger s
    → post_accounts c currency total (some (debit, credit)) s ≡ ok (t, r)
    → ((a : ℕ) → balance a t.entries ≡ balance a s.entries +ℤ moved debit credit total a)
      × IsLedger t
post_accounts-moves c currency total debit credit s t r v h =
    let p = gl_pair c currency total debit credit in
    let ((after, posted), e, h1) =
      >>=-eq-ok (post_pair p "inventory.stockmovement" (some c.movement_id) s) _ h in
    let same : t ≡ after = sym (ap (λ x. x.0) (ok-injective h1)) in
    let (moves, keeps) =
      post_pair-moves p "inventory.stockmovement" (some c.movement_id) s after posted v e in
    (λ a. rw same (moves a), rw same keeps)

moved_debit : (a b : ℕ) (n : ℤ) → b ≢ a → moved a b n a ≡ n
moved_debit a b n h = rw (==_refl a, apart_test b a h) (+ℤ_zero n)

moved_credit : (a b : ℕ) (n : ℤ) → a ≢ b → moved a b n b ≡ neg n
moved_credit a b n h = rw (==_refl b, apart_test a b h) (omega int_laws)

costed_ties :
    (u : Unicode) (c : PostInventoryGlCommand) (inv : ℕ) (p : Product) (m : StockMovement)
    (total : ℤ) (currency : Currency) (s t : Ledger) (r : Option InventoryGlResult)
    → IsLedger s
    → IsTied inv p m
    → post_accounts c currency total (gl_accounts none p m inv) s ≡ ok (t, r)
    → (balance inv t.entries ≡ balance inv s.entries +ℤ (if is_inbound m then total else neg total))
      × IsLedger t
costed_ties u c inv p m total currency s t r v w h = elim (Bool-cases (is_inbound m)) [
  | inl into ↦
      let accounts : gl_accounts none p m inv ≡ some (inv, w.other) = w.accounts ∙ rw into refl in
      let (moves, keeps) =
        post_accounts-moves c currency total inv w.other s t r v (rw accounts at h) in
      rw into (
        moves inv ∙ ap (λ x. balance inv s.entries +ℤ x) (moved_debit inv w.other total w.apart),
        keeps,
      )
  | inr out ↦
      let accounts : gl_accounts none p m inv ≡ some (w.other, inv) = w.accounts ∙ rw out refl in
      let (moves, keeps) =
        post_accounts-moves c currency total w.other inv s t r v (rw accounts at h) in
      rw out (
        moves inv ∙ ap (λ x. balance inv s.entries +ℤ x) (moved_credit w.other inv total w.apart),
        keeps,
      )
]

-- The entry of a movement that is no transfer moves the balance of the inventory account by the
-- movement's signed cost.
pub post_movement-ties :
    (u : Unicode) (c : PostInventoryGlCommand) (inv : ℕ) (p : Product) (m : StockMovement)
    (s t : Ledger) (r : Option InventoryGlResult)
    → IsLedger s
    → IsTied inv p m
    → c.credit_account_id ≡ none
    → is_transfer m.movement_type ≡ false
    → post_movement u c p m s ≡ ok (t, r)
    → (balance inv t.entries ≡ balance inv s.entries +ℤ signed_cost m) × IsLedger t
unfolding post_movement
post_movement-ties u c inv p m s t r v w auto stays h =
    let skip : (c.skip_if_transfer && is_transfer m.movement_type) ≡ false =
      ground (arith, stays) in
    let h0 = rw (skip, w.inventory) at h in
    elim (Option-cases (costs m)) [
      | inl free ↦
          let same = ok-injective (rw free at h0) in
          rw (signed_cost, free)
            (
              ap (λ x. balance inv x.0.entries) (sym same) ∙ sym (+ℤ_zero _),
              subst (λ x. IsLedger x.0) same v,
            )
      | inr (amount, known) ↦
          let (currency, e, h1) =
            >>=-eq-ok (make_currency u c.currency_code (pos 2)) _ (rw known at h0) in
          rw (signed_cost, known)
            (costed_ties u c inv p m amount currency s t r v w (rw auto at h1))
    ]

-- `PostInventoryGL` on a logged movement that is no transfer, with no account given: the balance of
-- the inventory account moves by the movement's signed cost.
pub post_inventory_gl-ties :
    (u : Unicode) (c : PostInventoryGlCommand) (inv : ℕ) (stock : Stock) (m : StockMovement)
    (s t : Ledger) (r : Option InventoryGlResult)
    → IsLedger s
    → ((p : Product) → stock.products m.product_id ≡ some p → IsTied inv p m)
    → get_elem? stock.movements c.movement_id ≡ some m
    → c.credit_account_id ≡ none
    → is_transfer m.movement_type ≡ false
    → post_inventory_gl u c stock s ≡ ok (t, r)
    → (balance inv t.entries ≡ balance inv s.entries +ℤ signed_cost m) × IsLedger t
unfolding post_inventory_gl
post_inventory_gl-ties u c inv stock m s t r v w found auto stays h =
    let (p, e, h1) =
      >>=-eq-ok (or_raise (stock.products m.product_id) does_not_exist) _
        (rw (post_inventory_gl, found) at h) in
    post_movement-ties u c inv p m s t r v (w p (or_raise-eq-ok _ _ e)) auto stays h1
