-- ===== src/Inventory/Movement.antt =====
-- `MovementType` and `MovementSpec` of apps/inventory/domain/entities.py. Keys of rows are numbers,
-- a zero being refused; a unit cost is a count of 0.0001.
use gs_erp.Base.{
  ℕ, ◌<◌, String, ◌≡◌, ◌⊎◌, Bool, true, false, not, ◌&&◌, ◌||◌, Option, none, some, arith, ◌==◌,
  if◌then◌else◌, ℤ, pos, negsuc, eqb_ℤ, Result, ok, ◌>>◌, guard, raise_if, is_blank,
  invalid_movement,
}
use gs_erp.Core.Quantity.{Quantity, is_zero}

pub data MovementType : Type 0 where
  inbound outbound transfer_out transfer_in adjustment : MovementType

-- `MovementType.direction`
unfoldable pub type_direction : MovementType → ℤ
type_direction inbound = pos 1
type_direction transfer_in = pos 1
type_direction outbound = negsuc 0
type_direction transfer_out = negsuc 0
type_direction adjustment = pos 0

pub record MovementSpec : Type 0 where
  pub product_id : ℕ
  pub warehouse_id : ℕ
  pub movement_type : MovementType
  pub quantity : Quantity
  pub reference : String
  pub source_type : String
  pub source_id : Option ℕ
  pub transfer_id : Option ℕ
  pub signed_for_adjustment : ℤ
  pub unit_cost : Option ℤ

abbrev pub is_transfer : MovementType → Bool
is_transfer transfer_out = true
is_transfer transfer_in = true
is_transfer _ = false

abbrev pub is_adjustment : MovementType → Bool
is_adjustment adjustment = true
is_adjustment _ = false

abbrev is_set : Option ℕ → Bool
is_set none = false
is_set (some i) = true

-- `sign in (-1, +1)`
abbrev is_sign : ℤ → Bool
is_sign s = eqb_ℤ s (negsuc 0) || eqb_ℤ s (pos 1)

-- `__post_init__`
unfoldable pub make_movement : MovementSpec → Result MovementSpec
make_movement m = do
  raise_if (m.product_id == 0) invalid_movement
  raise_if (m.warehouse_id == 0) invalid_movement
  raise_if (is_zero m.quantity) invalid_movement
  raise_if (is_blank m.reference) invalid_movement
  raise_if (is_transfer m.movement_type && not (is_set m.transfer_id)) invalid_movement
  raise_if (not (is_transfer m.movement_type) && is_set m.transfer_id) invalid_movement
  guard
      (if is_adjustment m.movement_type
        then is_sign m.signed_for_adjustment
        else eqb_ℤ m.signed_for_adjustment (pos 0))
      invalid_movement
  ok m

-- `MovementSpec.direction`
unfoldable pub direction : MovementSpec → ℤ
unfolding type_direction
direction m =
    if is_adjustment m.movement_type
    then m.signed_for_adjustment
    else type_direction m.movement_type

-- A spec that was accepted moves a positive quantity in one of the two directions.
pub record IsMovement (m : MovementSpec) : Type 0 where
  pub moves : 0 < m.quantity.value
  pub directed : (direction m ≡ pos 1) ⊎ (direction m ≡ negsuc 0)
  pub unsigned : (is_adjustment m.movement_type ≡ true) ⊎ (m.signed_for_adjustment ≡ pos 0)

pub make_movement-IsMovement :
    (m n : MovementSpec) → make_movement m ≡ ok n → (n ≡ m) × IsMovement m
unfolding make_movement direction
make_movement-IsMovement m n h = (
  ground arith,
  record { moves = ground arith; directed = ground arith; unsigned = ground arith },
)
