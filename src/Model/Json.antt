-- ===== src/Model/Json.antt =====
-- JSON values, for the payloads of webhooks and jobs. A float is held by its literal.
use tenantforge.Prelude.{ℤ, Bool, Text, Option, none, some, text_eq, if◌then◌else◌}

mutual
  pub data Json : Type 0 where
    null : Json
    bool : Bool → Json
    int : ℤ → Json
    float : Text → Json
    str : Text → Json
    arr : Items → Json
    obj : Fields → Json

  pub data Items : Type 0 where
    nil : Items
    cons : Json → Items → Items

  pub data Fields : Type 0 where
    end : Fields
    field : Text → Json → Fields → Fields

-- `d.get(key)`, and `d[key]` where `none` is a `KeyError`.
unfoldable pub get : Text → Fields → Option Json
get k end = none
get k (field j v rest) = if text_eq j k then some v else get k rest

-- Python's `str` and `int` of a value, and the codec of the `json` module: what they do on floats,
-- arrays and objects, and how texts are printed and parsed, are parameters.
pub record JsonCodec : Type 0 where
  pub dumps : Json → Text
  pub loads : Text → Option Json
  pub str_of_other : Json → Text
  pub int_of_text : Text → Option ℤ
  pub truncate : Text → ℤ

-- `str(value)`; what is no `str` is printed by the codec.
abbrev pub str_of : JsonCodec → Json → Text
str_of codec (str t) = t
str_of codec v = codec.str_of_other v
