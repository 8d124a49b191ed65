-- ===== src/Router/Types.antt =====
-- The types of router/router.go, and `Request` of adapt/request.go as the router reads it.
-- `adapt.Request` carries more (the HTTP request, the raw body, warnings), which no router reads
-- and no caller modelled here fills in. A client is named by a number; the nil client is `none`.
use llmadapter.Prelude.{ℕ, String, Bool, Option, List}
use llmadapter.Prelude.Assoc.{Assoc}
use llmadapter.Unified.Kinds.{ApiKind, ApiFamily, ContinuationMode, TransportKind}
use llmadapter.Unified.Request.{Request}

abbrev pub Client : Type 0
Client = ℕ

-- `adapt.Request`
pub record AdaptRequest : Type 0 where
  pub source_api : ApiKind
  pub unified : Request

-- `unified.ResolvedModelMetadata`
pub record ResolvedModelMetadata : Type 0 where
  pub service_id : String
  pub wire_model_id : String
  pub api_type : String
  pub reasoning_modes : List String
  pub reasoning_efforts : List String
  pub parameter_values : Assoc String (List String)
  pub parameter_mappings : Assoc String String
  pub parameter_value_mappings : Assoc String (Assoc String String)
  pub default_display_mode : String

pub record CapabilitySet : Type 0 where
  pub streaming : Bool
  pub tools : Bool
  pub parallel_tools : Bool
  pub vision : Bool
  pub audio_input : Bool
  pub audio_output : Bool
  pub json_mode : Bool
  pub json_schema : Bool
  pub reasoning : Bool
  pub reasoning_deltas : Bool
  pub citations : Bool
  pub built_in_web_search : Bool
  pub built_in_file_search : Bool
  pub code_execution : Bool
  pub computer_use : Bool
  pub server_side_state : Bool
  pub prompt_caching : Bool
  pub max_input_tokens : ℕ
  pub max_output_tokens : ℕ

pub record Route : Type 0 where
  pub source_api : ApiKind
  pub target_api : ApiKind
  pub target_family : ApiFamily
  pub provider_name : String
  pub public_model : String
  pub native_model : String
  pub client : Option Client
  pub capabilities : CapabilitySet
  pub consumer_continuation : ContinuationMode
  pub internal_continuation : ContinuationMode
  pub transport : TransportKind
  pub model_metadata : Option ResolvedModelMetadata

pub record ProviderEndpoint : Type 0 where
  pub provider_name : String
  pub api_kind : ApiKind
  pub family : ApiFamily
  pub client : Option Client
  pub capabilities : CapabilitySet
  pub consumer_continuation : ContinuationMode
  pub internal_continuation : ContinuationMode
  pub transport : TransportKind
  pub priority : ℕ
  pub tags : Assoc String String

pub record ModelResolution : Type 0 where
  pub native_model : String
  pub capabilities : Option CapabilitySet
  pub model_metadata : Option ResolvedModelMetadata

abbrev CapabilityResolver : Type 0
CapabilityResolver = AdaptRequest → ProviderEndpoint → CapabilitySet

-- `none` stands for `ok == false`.
abbrev pub ModelResolver : Type 0
ModelResolver = AdaptRequest → ProviderEndpoint → Option ModelResolution

pub record StaticRoute : Type 0 where
  pub source_api : ApiKind
  pub model : String
  pub native_model : String
  pub dynamic_models : Bool
  pub weight : ℕ
  pub endpoint : ProviderEndpoint
  pub capability_resolver : Option CapabilityResolver
  pub model_resolver : Option ModelResolver
  pub model_metadata : Option ResolvedModelMetadata
