-- ===== src/Json.antt =====
-- The JSON trees that the handlers and emit_event of firmware/targets/esp32s3/main/main.c build with
-- cJSON, and cJSON itself, which is not part of the repository and so a parameter.
use dragon_bench.Common.{ℕ, Bool, Option, List, [], ◌∷◌, Text}

-- What the code reads of a finite double: its sign, the integer part of its size, and whether it has
-- a fraction.
pub record Number : Type 0 where
  pub negative : Bool
  pub whole : ℕ
  pub fractional : Bool

-- A tree that is built; `parsed` is what cJSON_Parse made of a text.
mutual
  pub data Json : Type 0 where
    str : Text → Json
    num : ℕ → Json
    real : Number → Json
    bool : Bool → Json
    parsed : Text → Json
    obj : Members → Json
    arr : Elements → Json

  pub data Members : Type 0 where
    no_member : Members
    member : Text → Json → Members → Members

  pub data Elements : Type 0 where
    no_element : Elements
    element : Json → Elements → Elements

abbrev pub Field : Type 0
Field = Text × Json

abbrev pub members_of : List Field → Members
members_of [] = no_member
members_of ((k, v) ∷ fs) = member k v (members_of fs)

-- cJSON_CreateObject, and one cJSON_Add…ToObject for each field in order.
abbrev pub object : List Field → Json
object fs = obj (members_of fs)

abbrev pub elements_of : List Json → Elements
elements_of [] = no_element
elements_of (v ∷ vs) = element v (elements_of vs)

-- An array with one cJSON_AddItemToArray for each element.
abbrev pub array : List Json → Json
array vs = arr (elements_of vs)

-- An item of a received object: a string, a number, or neither.
pub data Item : Type 0 where
  string_item : Text → Item
  number_item : Number → Item
  other_item : Item

-- A received body: what cJSON_GetObjectItemCaseSensitive finds under a name.
abbrev pub Body : Type 0
Body = Text → Option Item

pub record Cjson : Type 0 where
  -- cJSON_PrintUnformatted; `none` is NULL.
  pub print : Json → Option Text
  -- Whether cJSON_Parse accepts a text.
  pub parses : Text → Bool
  -- cJSON_Parse of a request's body.
  pub parse_body : Text → Option Body
