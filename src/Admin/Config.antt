-- ===== src/Admin/Config.antt =====
-- src/admin/ConfigResource.ts: resources with a configuration, and configurations.
pub mod Laws
use kafka_node_ts.Prelude.{Bool, Option, List, [], ◌∷◌, ◌++◌}
use kafka_node_ts.Text.{JsString}
use kafka_node_ts.Text.Literals.{codes}
use kafka_node_ts.JsMap.{JsMap, string_key, get, set, values}

pub data ResourceType : Type 0 where
  unknown topic broker broker_logger : ResourceType

-- An enum's number, as a template literal prints it.
abbrev pub type_text : ResourceType → JsString
type_text unknown = codes "0"
type_text topic = codes "1"
type_text broker = codes "2"
type_text broker_logger = codes "3"

pub record ConfigResource : Type 0 where
  pub type : ResourceType
  pub name : JsString

-- `key`
unfoldable pub resource_key : ConfigResource → JsString
resource_key r = type_text r.type ++ (codes ":" ++ r.name)

pub record ConfigEntry : Type 0 where
  pub name : JsString
  pub value : JsString
  pub is_read_only : Bool
  pub is_sensitive : Bool
  pub is_default : Bool

pub record Config : Type 0 where
  pub entries : JsMap JsString ConfigEntry

abbrev pub new_config : Config
new_config = record { entries = [] }

unfoldable pub add_entry : ConfigEntry → Config → Config
add_entry entry c = record c { entries = set entry.name entry c.entries }

abbrev pub get_entries : Config → List ConfigEntry
get_entries c = values c.entries

unfoldable pub get_entry : JsString → Config → Option ConfigEntry
get_entry name c = get name c.entries
