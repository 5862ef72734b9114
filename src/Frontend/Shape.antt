-- ===== src/Frontend/Shape.antt =====
-- The shape of a snapshot, as the gateway serves it and as the dashboard holds one to fall back on.
-- The figures of a service are whole numbers, an error rate in thousandths. The fields of an event
-- are those of a JavaScript object; scores are in hundredths.
use aiself_healer.Common.{
  ℕ, String, Bool, false, not, Option, none, some, List, nat_eq, is_empty, if◌then◌else◌,
}
use aiself_healer.JsMap.{JsMap}
use aiself_healer.Frontend.Snapshot.{Service}

-- A value of a field: `null`, a text, a whole number, or a number in hundredths.
pub data Field : Type 0 where
  null : Field
  text : String → Field
  whole : ℕ → Field
  hundredths : ℕ → Field

abbrev pub Row : Type 0
Row = JsMap Field

-- An event, with the fields of its `payload` apart.
pub record Event : Type 0 where
  pub fields : Row
  pub payload : Option Row

pub record Edge : Type 0 where
  pub source : String
  pub target : String
  pub traffic : ℕ

pub record Snapshot : Type 0 where
  pub generated_at : String
  pub services : List (Service ℕ)
  pub edges : List Edge
  pub anomalies : Option (List Event)
  pub healing : Option (List Event)
  pub scaling : Option (List Event)

abbrev pub plain : Row → Event
plain fields = record { fields = fields; payload = none }

-- `Boolean(value)` of a field that may be absent
abbrev pub truthy_field : Option Field → Bool
truthy_field none = false
truthy_field (some null) = false
truthy_field (some (text s)) = not (is_empty s)
truthy_field (some (whole n)) = not (nat_eq n 0)
truthy_field (some (hundredths n)) = not (nat_eq n 0)

-- `a || b`
abbrev pub or_field : Option Field → Option Field → Option Field
or_field a b = if truthy_field a then a else b

-- `a ?? b`
abbrev pub coalesce : Option Field → Option Field → Option Field
coalesce none b = b
coalesce (some null) b = b
coalesce (some (text s)) b = some (text s)
coalesce (some (whole n)) b = some (whole n)
coalesce (some (hundredths n)) b = some (hundredths n)
