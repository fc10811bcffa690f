-- ===== src/Client/Depth/Bounds.antt =====
-- packages/oblivinx3x/src/security/validator.ts: what `validateDepth` lets pass.
use oblivinx.Base.{ℕ, ◌+◌, ◌≤◌, max, ◌≡◌, refl, ◌↔◌, true, if◌then◌else◌, leb, arith}
use oblivinx.Base.Value.{Value, Items, Fields}
use oblivinx.Client.Depth.{validate_depth, validate_items, validate_fields}

-- How deep a value is: the longest way into arrays and objects.
unfoldable mutual
  pub depth : Value → ℕ
  depth Value.null = 0
  depth (Value.boolean _) = 0
  depth (Value.number _) = 0
  depth (Value.text _) = 0
  depth (Value.array items) = depth_items items
  depth (Value.object fields) = depth_fields fields

  pub depth_items : Items → ℕ
  depth_items Items.nil = 0
  depth_items (Items.cons value items) = max (depth value + 1) (depth_items items)

  pub depth_fields : Fields → ℕ
  depth_fields Fields.end = 0
  depth_fields (Fields.field _ value fields) = max (depth value + 1) (depth_fields fields)

mutual
  unfolding validate_depth depth

  depth_lem : (m c : ℕ) (v : Value) → validate_depth m c v ≡ leb (c + depth v) m
  depth_lem m c Value.null = ground arith
  depth_lem m c (Value.boolean _) = ground arith
  depth_lem m c (Value.number _) = ground arith
  depth_lem m c (Value.text _) = ground arith
  depth_lem m c (Value.array items) = ground (arith, depth_items_lem m (c + 1) items)
  depth_lem m c (Value.object fields) = ground (arith, depth_fields_lem m (c + 1) fields)

  depth_items_lem :
      (m c : ℕ) (items : Items)
      → validate_items m c items
        ≡ (if leb 1 (depth_items items) then leb (c + depth_items items) (m + 1) else true)
  depth_items_lem m c Items.nil = refl
  depth_items_lem m c (Items.cons v items) =
      ground (arith, depth_lem m c v, depth_items_lem m c items)

  depth_fields_lem :
      (m c : ℕ) (fields : Fields)
      → validate_fields m c fields
        ≡ (if leb 1 (depth_fields fields) then leb (c + depth_fields fields) (m + 1) else true)
  depth_fields_lem m c Fields.end = refl
  depth_fields_lem m c (Fields.field _ v fields) =
      ground (arith, depth_lem m c v, depth_fields_lem m c fields)

-- `validateDepth` returns for a value and a limit exactly if the longest way into the arrays and
-- objects of the value has at most that many steps.
pub validate_depth-depth :
    (limit : ℕ) (value : Value) → (validate_depth limit 0 value ≡ true) ↔ (depth value ≤ limit)
validate_depth-depth limit value =
    (λ h. ground (arith, depth_lem limit 0 value), λ h. ground (arith, depth_lem limit 0 value))
