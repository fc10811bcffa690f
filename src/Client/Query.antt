-- ===== src/Client/Query.antt =====
-- packages/oblivinx3x/src/query/FilterBuilder.ts and security/validation.ts: the filters that are
-- built, and the test that they pass. A filter is what a caller hands over: a plain object, whose
-- values may be regular expressions. An object is the list of its entries, in order.
pub mod Builder
pub mod Validator
use oblivinx.Base.{
  ℕ, zero, suc, Bool, true, false, String, Option, none, some, if◌then◌else◌, str_eq,
}

mutual
  pub data Input : Type 0 where
    null : Input
    boolean : Bool → Input
    number : ℕ → Input
    text : String → Input
    regexp : String → Input
    array : Inputs → Input
    object : Entries → Input

  pub data Inputs : Type 0 where
    nil : Inputs
    cons : Input → Inputs → Inputs

  pub data Entries : Type 0 where
    end : Entries
    entry : String → Input → Entries → Entries

-- `filter[key]`.
unfoldable pub get : String → Entries → Option Input
get key Entries.end = none
get key (Entries.entry other value rest) =
    let later = get key rest in if str_eq other key then some value else later

-- `{ ...filter, [key]: value }`.
unfoldable pub put : String → Input → Entries → Entries
put key value Entries.end = Entries.entry key value Entries.end
put key value (Entries.entry other old rest) =
    let later = put key value rest in
    if str_eq other key then Entries.entry key value rest else Entries.entry other old later
