-- ===== src/Client/Versioning/Equal.antt =====
-- packages/oblivinx3x/src/versioning/VersionedDocument.ts: `deepEqual`.
use oblivinx.Base.{◌≡◌, refl, ap, Bool, true, false, str_eq, eq_iff, arith, ◌&&◌}
use oblivinx.Base.Value.{Value, Items, Fields}
use oblivinx.Client.Versioning.{bool_eq, deep_equal, items_equal, fields_equal}

bool_eq_lem : (a b : Bool) → bool_eq a b ≡ true → a ≡ b
bool_eq_lem true true h = refl
bool_eq_lem false false h = refl
bool_eq_lem true false h = absurd (cc)
bool_eq_lem false true h = absurd (cc)

both : (a b : Bool) → a && b ≡ true → (a ≡ true) × (b ≡ true)
both true b h = (refl, h)
both false b h = absurd (cc)

-- What is found equal is the same.
mutual
  unfolding deep_equal

  pub deep_equal_lem : (a b : Value) → deep_equal a b ≡ true → a ≡ b
  deep_equal_lem Value.null Value.null h = refl
  deep_equal_lem (Value.boolean a) (Value.boolean b) h = ap Value.boolean (bool_eq_lem a b h)
  deep_equal_lem (Value.number a) (Value.number b) h = ap Value.number (ground arith)
  deep_equal_lem (Value.text a) (Value.text b) h = ap Value.text ((eq_iff a b).0 h)
  deep_equal_lem (Value.array a) (Value.array b) h = ap Value.array (items_equal_lem a b h)
  deep_equal_lem (Value.object a) (Value.object b) h = ap Value.object (fields_equal_lem a b h)
  deep_equal_lem _ _ h = absurd (cc)

  items_equal_lem : (a b : Items) → items_equal a b ≡ true → a ≡ b
  items_equal_lem Items.nil Items.nil h = refl
  items_equal_lem (Items.cons v a) (Items.cons w b) h =
      let (front, later) = both (deep_equal v w) (items_equal a b) h in
      let first : v ≡ w = deep_equal_lem v w front in
      let rest : a ≡ b = items_equal_lem a b later in cc
  items_equal_lem _ _ h = absurd (cc)

  fields_equal_lem : (a b : Fields) → fields_equal a b ≡ true → a ≡ b
  fields_equal_lem Fields.end Fields.end h = refl
  fields_equal_lem (Fields.field k v a) (Fields.field j w b) h =
      let (name, both_later) = both (str_eq k j) (deep_equal v w && fields_equal a b) h in
      let (front, later) = both (deep_equal v w) (fields_equal a b) both_later in
      let key : k ≡ j = (eq_iff k j).0 name in
      let first : v ≡ w = deep_equal_lem v w front in
      let rest : a ≡ b = fields_equal_lem a b later in cc
  fields_equal_lem _ _ h = absurd (cc)
