-- ===== src/Pages/Rows.antt =====
-- The rest of the script of `landing` in firmware/targets/esp32s3/main/main.c: the rows of sensors, the
-- chips of workloads, and the labels beside the tiles.
use dragon_bench.Common.{
  Bool, true, false, Option, none, some, List, [], ◌∷◌, ◌++◌, map, Text, codes, utf8, is_empty,
  if◌then◌else◌,
}
use dragon_bench.Json.{
  Json, real, obj, arr, Number, Members, no_member, Elements, no_element, element,
}
use dragon_bench.Pages.Watch.{lookup, text_of, dash}
use dragon_bench.Pages.Dashboard.{bool_of}

-- `a || b` where a is a text or undefined.
abbrev pub or_text : Option Text → Text → Text
or_text none t = t
or_text (some s) t = if is_empty s then t else s

abbrev pub number_value : Option Json → Option Number
number_value (some (real n)) = some n
number_value _ = none

abbrev pub item_members : Json → Members
item_members (obj m) = m
item_members _ = no_member

abbrev pub items : Elements → List Members
items no_element = []
items (element j es) = item_members j ∷ items es

-- `… || []`
abbrev pub items_of : Option Json → List Members
items_of (some (arr es)) = items es
items_of _ = []

-- A row of renderSensors: a value is a number with the unit behind it, or a dash.
pub record Row : Type 0 where
  pub sensor_id : Text
  pub name : Text
  pub value : Option (Number × Text)
  pub status : Text

abbrev pub unit_text : Option Text → Text
unit_text none = []
unit_text (some u) = if is_empty u then [] else codes " " ++ u

abbrev pub value_with : Option Number → Text → Option (Number × Text)
value_with none unit = none
value_with (some n) unit = some (n, unit)

unfoldable pub sensor_row : Members → Row
unfolding lookup
sensor_row s = record {
  sensor_id = or_text (text_of (lookup (codes "id") s)) [];
  name =
      or_text (text_of (lookup (codes "name") s))
        (or_text (text_of (lookup (codes "id") s)) (codes "sensor"));
  value =
      value_with (number_value (lookup (codes "value") s))
        (unit_text (text_of (lookup (codes "unit") s)));
  status = or_text (text_of (lookup (codes "status") s)) (codes "unavailable");
}

-- renderSensors
unfoldable pub sensor_rows : Members → List Row
unfolding sensor_row
sensor_rows answer = map sensor_row (items_of (lookup (codes "sensors") answer))

-- A chip of renderWorkloads.
pub record Chip : Type 0 where
  pub status : Text
  pub text : Text

abbrev pub chip : Text → Text → Chip
chip name status = record { status = status; text = name ++ (utf8 " · " ++ status) }

unfoldable pub workload_chip : Members → Chip
unfolding lookup
workload_chip w =
    chip (or_text (text_of (lookup (codes "id") w)) (codes "workload"))
      (or_text (text_of (lookup (codes "status") w)) (codes "unsupported"))

-- renderWorkloads
unfoldable pub workload_chips : Members → List Chip
unfolding workload_chip
workload_chips answer = map workload_chip (items_of (lookup (codes "workloads") answer))

-- The text and the status of a capability's label, which stays as it is where the answer has none.
pub record Label : Type 0 where
  pub text : Text
  pub status : Text

unfoldable pub capability_label : Option Bool → Label → Label
capability_label none label = label
capability_label (some true) label = record { text = codes "PRESENT"; status = codes "error" }
capability_label (some false) label = record { text = codes "ABSENT"; status = codes "unsupported" }

-- The labels of the heater and of the fan control after renderStatus.
unfoldable pub capability_labels : Members → Label × Label → Label × Label
unfolding lookup capability_label
capability_labels answer (heater, fan) = (
  capability_label (bool_of (lookup (codes "heater_capability") answer)) heater,
  capability_label (bool_of (lookup (codes "fan_control_capability") answer)) fan,
)

-- The line under the title after renderStatus.
unfoldable pub identity_line : Members → Text
unfolding lookup
identity_line answer =
    or_text (text_of (lookup (codes "target") answer)) (utf8 "target —")
    ++ (utf8 " · firmware " ++ or_text (text_of (lookup (codes "firmware_version") answer)) dash)
