-- ===== src/Lib.antt =====
-- llmadapter, a router and gateway for language-model providers.
--
-- A client's request reaches an endpoint, which decodes it into the unified model (unified/). The
-- router (router/) gives the routes that can serve it, best first; the gateway (gateway/) or the
-- multiplexing client (muxclient/) tries them in turn (internal/routeattempt/), and what the
-- provider's client answers is a stream of unified events, which the gateway writes and `Collect`
-- turns into one response. Streams may pass processors (pipeline/) and are opened over transports
-- (transport/).
--
-- The modules:
--
-- - Unified: unified/. Kinds, Content, Request, Errors, Usage, Event and Response hold the data
--   model, with the fields of the source; Collect models `Collect`, its local maps as the record
--   `Collector`, one function for each event it distinguishes, and `turn`, `collect_from` and
--   `collect` composed as its loop is. Collect/Run has the lemmas on the loop, Blocks, Tools,
--   Arguments, Reuse, Ends, Distinct and AnyOrder the theorems. Json is what `json.Unmarshal` makes of a text. Extensions
--   is unified/extensions.go on one map of extensions, with the typed ones in OpenRouter, OpenAi,
--   Anthropic and Codex; ReadBack is on setting and reading.
-- - Router: router/router.go. Types, Capabilities (`capabilityMismatch`), Rank (`routeRank`) and
--   Routes (`Routes`, `Route`) are the code; Capabilities/Needs, Rank/Order, Gather, Selection,
--   Failure and Shadow the theorems.
-- - RouteAttempt: internal/routeattempt/routeattempt.go, with `Set`, `Raw` and
--   `SetResolvedModelMetadata` of unified/extensions.go. The map of a request's extensions is shared
--   by every copy of the request, so maps live in a store and requests hold addresses.
-- - Gateway: gateway/health.go in Health, gateway/http.go in Health (`orderByHealth`) and Handler
--   (`ServeHTTP`, whose effects are a trace of actions). Health/Keys is on the key of a route.
-- - MuxClient: muxclient/muxclient.go.
-- - Pipeline: pipeline/ without transform.go; coalesce.go in Coalesce.
-- - Transport: transport/retry.go in Retry, transport/sse.go in Sse (`Next`, `ParseSSEFrame`) over the
--   lists of bytes of Bytes; Sse/Blocks, Sse/Frames and Sse/Progress are on what they read.
-- - Endpoints: the writers of SSE events, `writeSSEEvent` and `writeSSEData`; Endpoints/Written has
--   what the reader makes of their output. Decoding has what the endpoints' decoders share. Anthropic
--   is endpoints/anthropicmessages/codec.go: Decode (requests, `WriteError`), Respond
--   (`responseFromUnified`) and Stream (`streamState`, `writeStream`); Passes, Steps, ReadBack and
--   Messages lead its frames through the provider's decoder, Opened, Writes and Order are on the frames
--   alone, Continued
--   on responses that come back, LostCall on a chat completions stream. Chat is
--   endpoints/openaichatcompletions/: Wire, Decode, Requests and Stream; BadRequests is on what it
--   refuses, Merged on its tool calls.
-- - Providers: ChatCompletions has the wire types, the request encoder (`encodeRequest`), the stream
--   decoder and `readStream` of providers/openai/chatcompletions/; Anthropic those of
--   providers/anthropic/messages/decoder.go and quota.go, `SystemContent` of anthropicwire/wire.go
--   and its wire types; Citations is internal/citations/.
-- - Pricing: pricing/, with the floating-point operations a parameter.
-- - AdapterConfig: adapterconfig/compatibility.go in Candidates, and in Evidence and
--   Selection what adapterconfig/usecase_selection.go does with the resolved candidates; Selected and
--   Offline are on the results.
-- - Compatibility: compatibility/, in Types, Evaluate, and Profiles with the evidence of capabilities;
--   Status and Builtin are on the verdicts.
-- - Prelude: Boolean tests, lists over native numbers, association lists, 64-bit integers and the
--   stable sort. Tests: concrete inputs.
--
-- Go integers that the code subtracts or compares by sign (weights, priorities, durations, limits)
-- are 64-bit patterns whose sums and differences wrap around; indices and counts are natural
-- numbers. Floating-point amounts are bit patterns. Errors keep their format and arguments instead
-- of the text. Channels are the lists of what they give; a cancelled context ends such a list where
-- the code distinguishes it (`Collect`, the wait between two attempts of `RetryTransport`), and the
-- other functions are modelled in a context that is not cancelled. Every loop is recursion over the
-- list or the number of turns it has, but for `readStream`, whose turns are counted: one more than
-- the bytes of the input is enough, since every turn reads some.
--
-- Parameters stand for what the repository does not define or what only happens outside: the
-- clients' answers, the endpoint's reading and writing, the clock, `json.Marshal`, the order in which
-- Go iterates over a map, the inner transport and its replayed body, resolvers of a configuration, the
-- length of a string in bytes, the rest of the names that adapterconfig/modeldb.go takes apart, JSON
-- decoding and encoding, whether a text is JSON or has control or space characters, and the parsers
-- and printers of the standard library. JSON between an endpoint and a provider is a function from
-- the types of the one to those of the other, of which a theorem assumes what fields of the same name
-- carry over.
--
-- Not modelled: the request encoder of the Anthropic provider, the responses codec and its endpoint,
-- the reading of the body of a request (`DecodeHTTP`), the configuration and the resolution of models (the rest of adapterconfig/), the
-- transports that do I/O, commands, diagnostics and conformance reports.
mod Prelude
pub mod Unified
pub mod Router
pub mod RouteAttempt
pub mod Gateway
pub mod MuxClient
pub mod AdapterConfig
pub mod Compatibility
pub mod Endpoints
pub mod Pipeline
pub mod Pricing
pub mod Providers
pub mod Transport
mod Tests
