-- ===== src/Tests.antt =====
-- Concrete requests, routes and streams, on which the theorems are applied.
mod Collecting
mod Decoding
mod Judging
mod Routing
mod Serving
mod Streaming
mod Writing
use llmadapter.Prelude.{ℕ, String, true, false, none, some, []}
use llmadapter.Unified.Request.{Request}
use llmadapter.Unified.Errors.{GoError, formatted}
use llmadapter.Router.Types.{
  AdaptRequest, ResolvedModelMetadata, CapabilitySet, Route, ProviderEndpoint, StaticRoute,
}

abbrev hello : Request
hello = record {
  model = "gpt";
  messages = [];
  instructions = [];
  max_output_tokens = none;
  temperature = none;
  top_p = none;
  top_k = none;
  stop = [];
  seed = none;
  response_format = none;
  tools = [];
  tool_choice = none;
  parallel_tool_calls = none;
  reasoning = none;
  safety = none;
  stream = true;
  user = "";
  cache_policy = "";
  cache_key = "";
  cache_ttl = "";
  extensions = none;
}

abbrev hello_chat : AdaptRequest
hello_chat = record { source_api = "openai.chat_completions"; unified = hello }

abbrev hello_any : AdaptRequest
hello_any = record { source_api = ""; unified = hello }

abbrev streaming_only : CapabilitySet
streaming_only = record {
  streaming = true;
  tools = false;
  parallel_tools = false;
  vision = false;
  audio_input = false;
  audio_output = false;
  json_mode = false;
  json_schema = false;
  reasoning = false;
  reasoning_deltas = false;
  citations = false;
  built_in_web_search = false;
  built_in_file_search = false;
  code_execution = false;
  computer_use = false;
  server_side_state = false;
  prompt_caching = false;
  max_input_tokens = 0;
  max_output_tokens = 0;
}

abbrev endpoint_of : String → ℕ → ProviderEndpoint
endpoint_of name client = record {
  provider_name = name;
  api_kind = "openai.chat_completions";
  family = "openai";
  client = some client;
  capabilities = streaming_only;
  consumer_continuation = "";
  internal_continuation = "";
  transport = "";
  priority = 0;
  tags = [];
}

-- A route for one model name, of the given weight.
abbrev static_route : String → ℕ → StaticRoute
static_route name weight = record {
  source_api = "openai.chat_completions";
  model = "gpt";
  native_model = "gpt-native";
  dynamic_models = false;
  weight = weight;
  endpoint = endpoint_of name weight;
  capability_resolver = none;
  model_resolver = none;
  model_metadata = none;
}

-- A route of another model name, with "gpt" as its native model, and a dynamic route.
abbrev renamed_route : StaticRoute
renamed_route = record (static_route "first" 1) { model = "best"; native_model = "gpt" }

abbrev dynamic_route : StaticRoute
dynamic_route = record (static_route "second" 2) {
  model = "";
  native_model = "";
  dynamic_models = true;
}

abbrev route_of : String → ℕ → Route
route_of name client = record {
  source_api = "openai.chat_completions";
  target_api = "openai.chat_completions";
  target_family = "openai";
  provider_name = name;
  public_model = "gpt";
  native_model = "gpt-native";
  client = some client;
  capabilities = streaming_only;
  consumer_continuation = "";
  internal_continuation = "";
  transport = "";
  model_metadata = none;
}

abbrev pub metadata : ResolvedModelMetadata
metadata = record {
  service_id = "service";
  wire_model_id = "gpt-native";
  api_type = "chat";
  reasoning_modes = [];
  reasoning_efforts = [];
  parameter_values = [];
  parameter_mappings = [];
  parameter_value_mappings = [];
  default_display_mode = "";
}

abbrev unreachable : GoError
unreachable = formatted "unreachable" []
