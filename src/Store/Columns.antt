-- ===== src/Store/Columns.antt =====
-- router/internal/store/provider.go: how a `StringMap` and a `StringList` are kept in a text column.
pub mod Laws
use aether_code.Base.{
  List, [], ◌∷◌, ◌++◌, Option, none, some, Bool, Text, codes, ◌==◌, text_eq, if◌then◌else◌, Result,
  ok, err, ◌>>=◌,
}
use aether_code.Text.{trim_space, has_prefix, split}
use aether_code.Store.Capability.{normalize_endpoint_capabilities}
use aether_code.Store.Provider.{StringMap}

-- What a driver hands to `Scan`: nil, bytes, a string, or a value of another type, by its name.
pub data Column : Type 0 where
  null : Column
  bytes string other : Text → Column

-- `encoding/json` at the two types.
pub record ColumnJson : Type 0 where
  pub marshal_map : List (Text × Text) → Result Text Text
  pub unmarshal_map : Text → Result Text StringMap
  pub marshal_list : List Text → Result Text Text
  pub unmarshal_list : Text → Result Text (List Text)

module _ (json : ColumnJson) where
  abbrev pub map_entries : List (Text × Text) → Result Text Text
  map_entries [] = ok (codes "{}")
  map_entries (e ∷ es) = json.marshal_map (e ∷ es)

  abbrev pub map_value_of : StringMap → Result Text Text
  map_value_of none = ok (codes "{}")
  map_value_of (some es) = map_entries es

  -- `StringMap.Value`
  unfoldable pub map_value : StringMap → Result Text Text
  map_value m = map_value_of m

  abbrev pub scan_map_text : Text → Result Text StringMap
  scan_map_text text = if trim_space text == [] then ok (some []) else json.unmarshal_map text

  -- `StringMap.Scan`
  unfoldable pub scan_map : Column → Result Text StringMap
  scan_map null = ok (some [])
  scan_map (bytes text) = scan_map_text text
  scan_map (string text) = scan_map_text text
  scan_map (other type) = err (codes "unsupported StringMap value " ++ type)

  -- `StringList.Value`
  unfoldable pub list_value : List Text → Result Text Text
  list_value [] = ok (codes "[]")
  list_value (v ∷ vs) = json.marshal_list (v ∷ vs)

  abbrev pub scan_list_text : Text → Result Text (List Text)
  scan_list_text text =
      if trim_space text == []
      then ok []
      else if has_prefix (trim_space text) (codes "[")
      then (json.unmarshal_list text >>= λ values. ok (normalize_endpoint_capabilities values))
      else ok (normalize_endpoint_capabilities (split text b','))

  -- `StringList.Scan`
  unfoldable pub scan_list : Column → Result Text (List Text)
  scan_list null = ok []
  scan_list (bytes text) = scan_list_text text
  scan_list (string text) = scan_list_text text
  scan_list (other type) = err (codes "unsupported StringList value " ++ type)
