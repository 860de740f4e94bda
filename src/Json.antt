-- ===== src/Json.antt =====
-- JSON values, as the routes of the backend read them. What JavaScript's `JSON.parse` and `Number`
-- give is a parameter.
use text.Mathlib.Text.{◌==◌ as str_eq}
use api_provider.Prelude.{String, Bool, Option, none, some}
use api_provider.Prelude.Tests.{if◌then◌else◌}
use api_provider.Number.{Number, nan}

mutual
  pub data Json : Type 0 where
    null : Json
    boolean : Bool → Json
    number : Number → Json
    string : String → Json
    array : Items → Json
    object : Members → Json

  pub data Items : Type 0 where
    no_items : Items
    item : Json → Items → Items

  pub data Members : Type 0 where
    no_members : Members
    member : String → Json → Members → Members

-- `JSON.parse`, and `Number(value)` of a parsed value.
pub record Javascript : Type 0 where
  pub parse : String → Option Json
  pub number_of : Json → Number

-- `body.name`; a later member of the same name counts.
abbrev pub field : String → Members → Option Json
field name no_members = none
field name (member other value more) = elim (field name more) [
  | some later ↦ some later
  | none ↦ if str_eq other name then some value else none
]

-- `typeof body.name === "string"`
abbrev pub text_field : String → Members → Option String
text_field name body = elim (field name body) [ some (string s) ↦ some s | _ ↦ none ]

-- `Number(body.name)`, of a name that is missing too.
abbrev pub number_field : Javascript → String → Members → Number
number_field js name body = elim (field name body) [ none ↦ nan | some value ↦ js.number_of value ]
