-- ===== src/Unified/Content.antt =====
-- unified/content.go and unified/cache.go. JSON text (`json.RawMessage`) and the values of a
-- `map[string]any` are held as text.
use llmadapter.Prelude.{ℕ, String, Option, List}
use llmadapter.Prelude.Assoc.{Assoc}

abbrev pub RawMessage : Type 0
RawMessage = String

abbrev pub AnyMap : Type 0
AnyMap = Assoc String String

pub record CacheControl : Type 0 where
  pub type : String
  pub ttl : String

pub record BlobSource : Type 0 where
  pub kind : String
  pub url : String
  pub base64 : String
  pub bytes : List ℕ
  pub file_id : String
  pub mime_type : String
  pub meta : AnyMap
  pub raw : RawMessage

pub data ContentPart : Type 0 where
  text_part : (text : String) (cache_control : Option CacheControl) → ContentPart
  image_part : (source : BlobSource) (alt : String) → ContentPart
  audio_part : (source : BlobSource) → ContentPart
  video_part : (source : BlobSource) → ContentPart
  file_part : (source : BlobSource) (filename mime_type : String) → ContentPart
  reasoning_part : (text signature : String) → ContentPart
  refusal_part : (text : String) → ContentPart
