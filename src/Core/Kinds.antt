-- ===== src/Core/Kinds.antt =====
-- The kinds of subjects and of resources (crates/oan-core/src/lib.rs).
use oan_protocol_common.Base.{
  ℕ, String, Bool, true, false, ◌≡◌, refl, sym, ap, ◌∙◌, Option, some, [], ◌∷◌, find, ◌==◌,
  string_eq, PartialEq, enum_eq, nth_or,
}

pub data SubjectType : Type 0 where
  agent_instance agent_product root_node registrar_node discovery_node cdn_node vc_issuer_node
        trust_indexer_node unspecified agent agent_service skill mcp_server tool_api organization
        developer infrastructure_node controller :
      SubjectType

pub data ResourceType : Type 0 where
  agent_instance agent_product agent_service skill mcp_server tool_api infrastructure_node
        organization developer root_node registrar_node discovery_node cdn_node vc_issuer_node
        trust_indexer_node unspecified controller :
      ResourceType

unfoldable pub as_str : ResourceType → String
as_str ResourceType.agent_instance = "agent_instance"
as_str ResourceType.agent_product = "agent_product"
as_str ResourceType.agent_service = "agent_service"
as_str ResourceType.skill = "skill"
as_str ResourceType.mcp_server = "mcp_server"
as_str ResourceType.tool_api = "tool_api"
as_str ResourceType.infrastructure_node = "infrastructure_node"
as_str ResourceType.organization = "organization"
as_str ResourceType.developer = "developer"
as_str ResourceType.root_node = "root_node"
as_str ResourceType.registrar_node = "registrar_node"
as_str ResourceType.discovery_node = "discovery_node"
as_str ResourceType.cdn_node = "cdn_node"
as_str ResourceType.vc_issuer_node = "vc_issuer_node"
as_str ResourceType.trust_indexer_node = "trust_indexer_node"
as_str ResourceType.unspecified = "unspecified"
as_str ResourceType.controller = "controller"

abbrev subject_discriminant : SubjectType → ℕ
subject_discriminant SubjectType.agent_instance = 0
subject_discriminant SubjectType.agent_product = 1
subject_discriminant SubjectType.root_node = 2
subject_discriminant SubjectType.registrar_node = 3
subject_discriminant SubjectType.discovery_node = 4
subject_discriminant SubjectType.cdn_node = 5
subject_discriminant SubjectType.vc_issuer_node = 6
subject_discriminant SubjectType.trust_indexer_node = 7
subject_discriminant SubjectType.unspecified = 8
subject_discriminant SubjectType.agent = 9
subject_discriminant SubjectType.agent_service = 10
subject_discriminant SubjectType.skill = 11
subject_discriminant SubjectType.mcp_server = 12
subject_discriminant SubjectType.tool_api = 13
subject_discriminant SubjectType.organization = 14
subject_discriminant SubjectType.developer = 15
subject_discriminant SubjectType.infrastructure_node = 16
subject_discriminant SubjectType.controller = 17

abbrev subject_of_discriminant : ℕ → SubjectType
subject_of_discriminant = nth_or SubjectType.controller (
    SubjectType.agent_instance ∷ SubjectType.agent_product ∷ SubjectType.root_node
    ∷ SubjectType.registrar_node ∷ SubjectType.discovery_node ∷ SubjectType.cdn_node
    ∷ SubjectType.vc_issuer_node ∷ SubjectType.trust_indexer_node ∷ SubjectType.unspecified
    ∷ SubjectType.agent ∷ SubjectType.agent_service ∷ SubjectType.skill ∷ SubjectType.mcp_server
    ∷ SubjectType.tool_api ∷ SubjectType.organization ∷ SubjectType.developer
    ∷ SubjectType.infrastructure_node ∷ SubjectType.controller ∷ [])

pub subject_back : (x : SubjectType) → subject_of_discriminant (subject_discriminant x) ≡ x
subject_back SubjectType.agent_instance = refl
subject_back SubjectType.agent_product = refl
subject_back SubjectType.root_node = refl
subject_back SubjectType.registrar_node = refl
subject_back SubjectType.discovery_node = refl
subject_back SubjectType.cdn_node = refl
subject_back SubjectType.vc_issuer_node = refl
subject_back SubjectType.trust_indexer_node = refl
subject_back SubjectType.unspecified = refl
subject_back SubjectType.agent = refl
subject_back SubjectType.agent_service = refl
subject_back SubjectType.skill = refl
subject_back SubjectType.mcp_server = refl
subject_back SubjectType.tool_api = refl
subject_back SubjectType.organization = refl
subject_back SubjectType.developer = refl
subject_back SubjectType.infrastructure_node = refl
subject_back SubjectType.controller = refl

instance abbrev pub subject_eq : PartialEq SubjectType
subject_eq = enum_eq subject_discriminant subject_of_discriminant subject_back

abbrev resource_discriminant : ResourceType → ℕ
resource_discriminant ResourceType.agent_instance = 0
resource_discriminant ResourceType.agent_product = 1
resource_discriminant ResourceType.agent_service = 2
resource_discriminant ResourceType.skill = 3
resource_discriminant ResourceType.mcp_server = 4
resource_discriminant ResourceType.tool_api = 5
resource_discriminant ResourceType.infrastructure_node = 6
resource_discriminant ResourceType.organization = 7
resource_discriminant ResourceType.developer = 8
resource_discriminant ResourceType.root_node = 9
resource_discriminant ResourceType.registrar_node = 10
resource_discriminant ResourceType.discovery_node = 11
resource_discriminant ResourceType.cdn_node = 12
resource_discriminant ResourceType.vc_issuer_node = 13
resource_discriminant ResourceType.trust_indexer_node = 14
resource_discriminant ResourceType.unspecified = 15
resource_discriminant ResourceType.controller = 16

abbrev resource_of_discriminant : ℕ → ResourceType
resource_of_discriminant = nth_or ResourceType.controller (
    ResourceType.agent_instance ∷ ResourceType.agent_product ∷ ResourceType.agent_service
    ∷ ResourceType.skill ∷ ResourceType.mcp_server ∷ ResourceType.tool_api
    ∷ ResourceType.infrastructure_node ∷ ResourceType.organization ∷ ResourceType.developer
    ∷ ResourceType.root_node ∷ ResourceType.registrar_node ∷ ResourceType.discovery_node
    ∷ ResourceType.cdn_node ∷ ResourceType.vc_issuer_node ∷ ResourceType.trust_indexer_node
    ∷ ResourceType.unspecified ∷ ResourceType.controller ∷ [])

pub resource_back : (x : ResourceType) → resource_of_discriminant (resource_discriminant x) ≡ x
resource_back ResourceType.agent_instance = refl
resource_back ResourceType.agent_product = refl
resource_back ResourceType.agent_service = refl
resource_back ResourceType.skill = refl
resource_back ResourceType.mcp_server = refl
resource_back ResourceType.tool_api = refl
resource_back ResourceType.infrastructure_node = refl
resource_back ResourceType.organization = refl
resource_back ResourceType.developer = refl
resource_back ResourceType.root_node = refl
resource_back ResourceType.registrar_node = refl
resource_back ResourceType.discovery_node = refl
resource_back ResourceType.cdn_node = refl
resource_back ResourceType.vc_issuer_node = refl
resource_back ResourceType.trust_indexer_node = refl
resource_back ResourceType.unspecified = refl
resource_back ResourceType.controller = refl

instance abbrev pub resource_eq : PartialEq ResourceType
resource_eq = enum_eq resource_discriminant resource_of_discriminant resource_back

-- the type with a name
abbrev resource_named : String → Option ResourceType
unfolding as_str
resource_named s =
    find (λ r. as_str r == s)
      (ResourceType.agent_instance ∷ ResourceType.agent_product ∷ ResourceType.agent_service
        ∷ ResourceType.skill ∷ ResourceType.mcp_server ∷ ResourceType.tool_api
        ∷ ResourceType.infrastructure_node ∷ ResourceType.organization ∷ ResourceType.developer
        ∷ ResourceType.root_node ∷ ResourceType.registrar_node ∷ ResourceType.discovery_node
        ∷ ResourceType.cdn_node ∷ ResourceType.vc_issuer_node ∷ ResourceType.trust_indexer_node
        ∷ ResourceType.unspecified ∷ ResourceType.controller ∷ [])

as_str_back : (x : ResourceType) → resource_named (as_str x) ≡ some x
unfolding as_str
as_str_back ResourceType.agent_instance = refl
as_str_back ResourceType.agent_product = refl
as_str_back ResourceType.agent_service = refl
as_str_back ResourceType.skill = refl
as_str_back ResourceType.mcp_server = refl
as_str_back ResourceType.tool_api = refl
as_str_back ResourceType.infrastructure_node = refl
as_str_back ResourceType.organization = refl
as_str_back ResourceType.developer = refl
as_str_back ResourceType.root_node = refl
as_str_back ResourceType.registrar_node = refl
as_str_back ResourceType.discovery_node = refl
as_str_back ResourceType.cdn_node = refl
as_str_back ResourceType.vc_issuer_node = refl
as_str_back ResourceType.trust_indexer_node = refl
as_str_back ResourceType.unspecified = refl
as_str_back ResourceType.controller = refl

pub as_str_injective : (x y : ResourceType) → as_str x ≡ as_str y → x ≡ y
as_str_injective x y p =
    let same : some x ≡ some y = sym (as_str_back x) ∙ ap resource_named p ∙ as_str_back y in cc

unfoldable pub valid_type_combination : SubjectType → ResourceType → Bool
valid_type_combination SubjectType.agent_instance ResourceType.agent_instance = true
valid_type_combination SubjectType.agent_instance ResourceType.agent_service = true
valid_type_combination SubjectType.agent_product ResourceType.agent_product = true
valid_type_combination SubjectType.organization ResourceType.organization = true
valid_type_combination SubjectType.developer ResourceType.developer = true
valid_type_combination SubjectType.agent_service ResourceType.agent_service = true
valid_type_combination SubjectType.skill ResourceType.skill = true
valid_type_combination SubjectType.mcp_server ResourceType.mcp_server = true
valid_type_combination SubjectType.tool_api ResourceType.tool_api = true
valid_type_combination SubjectType.infrastructure_node ResourceType.infrastructure_node = true
valid_type_combination SubjectType.infrastructure_node ResourceType.root_node = true
valid_type_combination SubjectType.infrastructure_node ResourceType.registrar_node = true
valid_type_combination SubjectType.infrastructure_node ResourceType.discovery_node = true
valid_type_combination SubjectType.infrastructure_node ResourceType.cdn_node = true
valid_type_combination SubjectType.infrastructure_node ResourceType.vc_issuer_node = true
valid_type_combination SubjectType.infrastructure_node ResourceType.trust_indexer_node = true
valid_type_combination SubjectType.root_node ResourceType.root_node = true
valid_type_combination SubjectType.registrar_node ResourceType.registrar_node = true
valid_type_combination SubjectType.discovery_node ResourceType.discovery_node = true
valid_type_combination SubjectType.cdn_node ResourceType.cdn_node = true
valid_type_combination SubjectType.vc_issuer_node ResourceType.vc_issuer_node = true
valid_type_combination SubjectType.trust_indexer_node ResourceType.trust_indexer_node = true
valid_type_combination SubjectType.controller ResourceType.controller = true
valid_type_combination SubjectType.unspecified ResourceType.unspecified = true
valid_type_combination _ _ = false

pub data NodeRole : Type 0 where
  root registrar discovery service_agent user_agent test_agent : NodeRole

unfoldable pub subject_type : NodeRole → SubjectType
subject_type root = SubjectType.infrastructure_node
subject_type registrar = SubjectType.infrastructure_node
subject_type discovery = SubjectType.infrastructure_node
subject_type _ = SubjectType.agent
