-- ===== src/Admin/Config/Laws.antt =====
-- src/admin/ConfigResource.ts: the key of a resource tells its type and its name.
use kafka_node_ts.Prelude.{arith, ◌≡◌, ◌++◌}
use kafka_node_ts.Text.{JsString}
use kafka_node_ts.Text.Literals.{codes}
use kafka_node_ts.Admin.Config.{ResourceType, type_text, unknown, ConfigResource, resource_key}

key_parts :
    (s t : ResourceType) (m n : JsString)
    → type_text s ++ (codes ":" ++ m) ≡ type_text t ++ (codes ":" ++ n)
    → (s ≡ t) × (m ≡ n)
key_parts unknown unknown m n h = ground arith
key_parts _ _ m n h = ground arith

-- Resources with the same key have the same type and the same name.
pub resource_key_inj : (a b : ConfigResource) → resource_key a ≡ resource_key b → a ≡ b
unfolding resource_key
resource_key_inj a b h = let (same_type, same_name) = key_parts a.type b.type a.name b.name h in cc
