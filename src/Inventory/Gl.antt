-- ===== src/Inventory/Gl.antt =====
-- `PostInventoryGL` of apps/inventory/application/use_cases/post_inventory_gl.py: the journal entry
-- of a stock movement. Actors are left out.
pub mod Books
use gs_erp.Base.{
  ℕ, zero, ◌-◌, ◌/◌, String, Bool, true, false, ◌&&◌, ◌||◌, Option, none, some, ◌==◌, if◌then◌else◌,
  ℤ, pos, eqb_ℤ, Result, ok, ◌>>=◌, ◌>>◌, or_raise, total, does_not_exist, get_elem?, concat, str,
}
use gs_erp.Core.Date.{Date}
use gs_erp.Core.Currency.{Currency, Unicode, make_currency}
use gs_erp.Core.Money.{Money}
use gs_erp.Finance.Ledger.{Ledger, PostedJournalEntry}
use gs_erp.Finance.Posting.{Pair, post_pair}
use gs_erp.Inventory.Movement.{MovementType, inbound, is_transfer, is_adjustment}
use gs_erp.Inventory.Stock.{Product, StockMovement, Stock}

pub record PostInventoryGlCommand : Type 0 where
  pub movement_id : ℕ
  pub entry_date : Date
  pub currency_code : String
  pub credit_account_id : Option ℕ
  pub skip_if_transfer : Bool

pub record InventoryGlResult : Type 0 where
  pub movement_id : ℕ
  pub journal_entry_id : ℕ
  pub total_cost : ℤ

-- A foreign key as a condition: no key of a row is zero.
abbrev pub truthy : Option ℕ → Option ℕ
truthy none = none
truthy (some k) = if k == 0 then none else some k

-- `a or b`
abbrev pub or_else : Option ℕ → Option ℕ → Option ℕ
or_else a b = elim (truthy a) [ some k ↦ some k | none ↦ b ]

abbrev is_inbound_type : MovementType → Bool
is_inbound_type inbound = true
is_inbound_type _ = false

unfoldable pub is_inbound : StockMovement → Bool
is_inbound m =
    is_inbound_type m.movement_type
    || (is_adjustment m.movement_type && eqb_ℤ m.adjustment_sign (pos 1))

-- The costs of a movement, when both are recorded.
abbrev pub costs : StockMovement → Option ℤ
costs m = elim m.total_cost [
  | some total ↦ elim m.unit_cost [ some cost ↦ some total | none ↦ none ]
  | none ↦ none
]

-- The account to debit and the account to credit; none when one is missing.
unfoldable pub gl_accounts : Option ℕ → Product → StockMovement → ℕ → Option (ℕ × ℕ)
unfolding is_inbound
gl_accounts credit_account product m inventory =
    if is_inbound m
    then elim (truthy (or_else credit_account product.purchase_account)) [
      | some credit ↦ some (inventory, credit)
      | none ↦ none
    ]
    else elim (truthy product.cogs_account) [ some cogs ↦ some (cogs, inventory) | none ↦ none ]

abbrev pub gl_pair : PostInventoryGlCommand → Currency → ℤ → ℕ → ℕ → Pair
gl_pair c currency total debit credit = record {
  entry_date = c.entry_date;
  reference = concat "INV-GL-" (str c.movement_id);
  debit_account = debit;
  credit_account = credit;
  amount = record { amount = total; currency = currency };
}

abbrev pub gl_result : ℕ → ℤ → PostedJournalEntry → InventoryGlResult
gl_result id total posted = record {
  movement_id = id;
  journal_entry_id = posted.entry_id;
  total_cost = total;
}

abbrev pub skipped : Ledger → Result (Ledger × Option InventoryGlResult)
skipped ledger = ok (ledger, none)

abbrev pub post_accounts :
    PostInventoryGlCommand
    → Currency
    → ℤ
    → Option (ℕ × ℕ)
    → Ledger
    → Result (Ledger × Option InventoryGlResult)
post_accounts c currency total none ledger = skipped ledger
post_accounts c currency total (some (debit, credit)) ledger = do
  (after, posted) ←
      post_pair (gl_pair c currency total debit credit) "inventory.stockmovement"
        (some c.movement_id) ledger
  ok (after, some (gl_result c.movement_id total posted))

-- The entry of a movement that was found, with its product.
unfoldable pub post_movement :
    Unicode
    → PostInventoryGlCommand
    → Product
    → StockMovement
    → Ledger
    → Result (Ledger × Option InventoryGlResult)
unfolding gl_accounts
post_movement u c product m ledger =
    if c.skip_if_transfer && is_transfer m.movement_type
    then skipped ledger
    else elim (truthy product.inventory_account) [
      | none ↦ skipped ledger
      | some inventory ↦ elim (costs m) [
        | none ↦ skipped ledger
        | some total ↦ do
          currency ← make_currency u c.currency_code (pos 2)
          post_accounts c currency total (gl_accounts c.credit_account_id product m inventory)
              ledger
      ]
    ]

-- `PostInventoryGL.execute`. A movement's product is there, by its foreign key.
unfoldable pub post_inventory_gl :
    Unicode → PostInventoryGlCommand → Stock → Ledger → Result (Ledger × Option InventoryGlResult)
unfolding post_movement
post_inventory_gl u c s ledger = elim (get_elem? s.movements c.movement_id) [
  | none ↦ skipped ledger
  | some m ↦ do
    product ← or_raise (s.products m.product_id) does_not_exist
    post_movement u c product m ledger
]
