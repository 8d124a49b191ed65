-- ===== src/Providers/Anthropic/SystemContent.antt =====
-- `SystemContent` of anthropicwire/wire.go. A pointer is an `Option`; a method that changes what
-- it points to gives it back. `MarshalJSON` and `UnmarshalJSON` are left out.
use llmadapter.Prelude.{
  join_lines, String, ◌≡◌, Bool, true, false, not, ◌&&◌, Option, none, some, is_some, List, [], ◌∷◌,
  ◌++◌, map, filter, is_nil, all, All, All-append, reverse, ◌==◌, string_eq, if◌then◌else◌,
  Bool-cases, inl, inr,
}
use llmadapter.Unified.Content.{CacheControl}
use llmadapter.Providers.Anthropic.Wire.{ContentBlock}

abbrev pub SystemContent : Type 0
SystemContent = List ContentBlock

abbrev has_type : ContentBlock → Bool
has_type block = not (block.type == "")

unfoldable new_system_content : List ContentBlock → Option SystemContent
new_system_content blocks =
    let typed = filter has_type blocks in if is_nil typed then none else some typed

abbrev is_full_text : ContentBlock → Bool
is_full_text block = block.type == "text" && not (block.text == "")

unfoldable system_text : Option SystemContent → String
system_text none = ""
system_text (some blocks) = join_lines (map (λ b. b.text) (filter is_full_text blocks))

unfoldable append_blocks : List ContentBlock → Option SystemContent → Option SystemContent
append_blocks blocks none = none
append_blocks blocks (some held) = some (held ++ filter has_type blocks)

unfoldable prepend_blocks : List ContentBlock → Option SystemContent → Option SystemContent
prepend_blocks blocks none = none
prepend_blocks blocks (some held) = some (filter has_type blocks ++ held)

-- The loop from the last block on, over the blocks in reverse.
unfoldable cache_first : CacheControl → List ContentBlock → Option (List ContentBlock)
cache_first cache [] = none
cache_first cache (block ∷ blocks) = elim (is_full_text block) [
  | true ↦ some (record block { cache = some cache } ∷ blocks)
  | false ↦ elim (cache_first cache blocks) [ none ↦ none | some rest ↦ some (block ∷ rest) ]
]

unfoldable apply_cache_to_last_text :
    Option CacheControl → Option SystemContent → Bool × Option SystemContent
unfolding cache_first
apply_cache_to_last_text (some cache) (some blocks) = elim (cache_first cache (reverse blocks)) [
  | none ↦ (false, some blocks)
  | some changed ↦ (true, some (reverse changed))
]
apply_cache_to_last_text _ content = (false, content)

abbrev is_plain : ContentBlock → Bool
is_plain b =
    b.type == "text"
    && not (is_some b.cache)
    && not (is_some b.source)
    && b.id == ""
    && b.name == ""
    && b.input == ""
    && b.content == ""
    && not b.is_error
    && is_nil b.citations
    && b.thinking == ""
    && b.signature == ""

unfoldable can_marshal_as_string : Option SystemContent → Bool
can_marshal_as_string none = false
can_marshal_as_string (some blocks) = not (is_nil blocks) && all is_plain blocks

-- Every block has a type, as `NewSystemContent` makes it.
abbrev IsTyped : Option SystemContent → Type 0
IsTyped none = Unit
IsTyped (some blocks) = All (λ b. has_type b ≡ true) blocks

All-filter-has_type :
    (blocks : List ContentBlock) → All (λ b. has_type b ≡ true) (filter has_type blocks)
All-filter-has_type [] = tt
All-filter-has_type (b ∷ bs) = elim (Bool-cases (has_type b)) [
  | inl e ↦ rw e (e, All-filter-has_type bs)
  | inr e ↦ rw e (All-filter-has_type bs)
]

-- Appended and prepended blocks keep it.
IsTyped-append_blocks :
    (blocks : List ContentBlock) (content : Option SystemContent)
    → IsTyped content
    → IsTyped (append_blocks blocks content)
unfolding append_blocks
IsTyped-append_blocks blocks none h = tt
IsTyped-append_blocks blocks (some held) h =
    All-append (λ b. has_type b ≡ true) held (filter has_type blocks) h (All-filter-has_type blocks)
