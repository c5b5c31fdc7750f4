-- ===== src/Json.antt =====
-- Values of the JSON library, nlohmann::json, as src/derp_map.cpp and src/saved_key.cpp read and write them. An
-- integer is what get<std::int64_t>() returns; a number of the library that is no integer is `real`, with what
-- get<std::int64_t>() makes of it.
use tailcat_in_c.Common.{Bool, Option, none, some, Bytes, bytes_eq, if◌then◌else◌}
use tailcat_in_c.Protocol.Cbor.Int64.{ℤ}

mutual
  pub data Json : Type 0 where
    null : Json
    real : ℤ → Json
    boolean : Bool → Json
    integer : ℤ → Json
    text : Bytes → Json
    array : Items → Json
    object : Fields → Json

  pub data Items : Type 0 where
    no_items : Items
    item : Json → Items → Items

  pub data Fields : Type 0 where
    no_fields : Fields
    field : Bytes → Json → Fields → Fields

-- The value of a key; an object has each key once.
unfoldable pub find_field : Bytes → Fields → Option Json
find_field key no_fields = none
find_field key (field name value fields) =
    let rest = find_field key fields in if bytes_eq name key then some value else rest
