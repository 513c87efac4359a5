-- ===== src/Orchestration/PauseGroup/Redaction.antt =====
-- The texts of a provider that are stored: packages/contracts/src/primitives.ts
-- (isForbiddenPayloadKey) and packages/orchestration/src/pause-group.ts
-- (redactProviderRequiredActionText, sortKeys). Names that are array indices, which an object keeps
-- before the others, are sorted as the others are. A text that is assigned to `__proto__` is dropped.
use forge_room.Base.{
  String, Bool, ◌||◌, if◌then◌else◌, List, [], ◌∷◌, map, any, includes, ◌==◌, string_eq,
}
use forge_room.Base.Json.{
  Json, Members, no_members, member, Items, no_items, item, object, array, text, natural_number,
  other_number, boolean, null,
}

-- FORBIDDEN_PAYLOAD_KEYS
abbrev pub forbidden_payload_keys : List String
forbidden_payload_keys =
    "password" ∷ "password_hash" ∷ "passwordhash" ∷ "api_key" ∷ "apikey" ∷ "access_token"
    ∷ "accesstoken" ∷ "refresh_token" ∷ "secret" ∷ "client_secret" ∷ "credential" ∷ "credentials"
    ∷ "authorization" ∷ "auth_header" ∷ "authheader" ∷ "reasoning" ∷ "model_reasoning"
    ∷ "reasoning_content" ∷ "thinking" ∷ "provider_thinking" ∷ "signature" ∷ "request_signature"
    ∷ "raw_tool_body" ∷ "raw_tool_body_fragment" ∷ "rawtoolbody" ∷ "database_password"
    ∷ "github_secret" ∷ "trueforge_api_key" ∷ "composio_api_key" ∷ "provider_api_key"
    ∷ "model_provider_api_key" ∷ "__proto__" ∷ "prototype" ∷ "constructor" ∷ []

abbrev pub forbidden_sensitive_suffixes : List String
forbidden_sensitive_suffixes =
    "apikey" ∷ "accesstoken" ∷ "refreshtoken" ∷ "clientsecret" ∷ "authheader" ∷ "authorization"
    ∷ "credential" ∷ "credentials" ∷ "password" ∷ "passwordhash" ∷ "secret" ∷ "reasoning"
    ∷ "thinking" ∷ "requestsignature" ∷ "rawtoolbody" ∷ "rawtoolbodyfragment" ∷ []

abbrev pub redacted_text : String
redacted_text = "[REDACTED]"

-- What the source uses of the language: `normalize` drops all but letters and digits and lowers the
-- rest, `redact` replaces the matches of PROVIDER_TEXT_SECRET_PATTERNS, and `before` is the order
-- of `sort`.
pub record ProviderTexts : Type 0 where
  pub normalize : String → String
  pub ends_with : (suffix : String) → String → Bool
  pub redact : String → String
  pub before : String → String → Bool

module _ (p : ProviderTexts) where
  unfoldable pub is_forbidden_payload_key : String → Bool
  is_forbidden_payload_key key =
      includes (map p.normalize forbidden_payload_keys) (p.normalize key)
      || any (λ suffix. p.ends_with suffix (p.normalize key)) forbidden_sensitive_suffixes

  unfoldable mutual
    pub redact_provider_required_action_text : Json → Json
    redact_provider_required_action_text (text s) = text (p.redact s)
    redact_provider_required_action_text (array items) = array (redact_items items)
    redact_provider_required_action_text (object m) = object (redact_members m)
    redact_provider_required_action_text (natural_number n) = natural_number n
    redact_provider_required_action_text (other_number s) = other_number s
    redact_provider_required_action_text (boolean b) = boolean b
    redact_provider_required_action_text null = null

    pub redact_items : Items → Items
    redact_items no_items = no_items
    redact_items (item first others) =
        item (redact_provider_required_action_text first) (redact_items others)

    pub redact_members : Members → Members
    redact_members no_members = no_members
    redact_members (member key value others) =
        let rest = redact_members others in
        let kept =
          member key
            (if is_forbidden_payload_key key
              then text redacted_text
              else redact_provider_required_action_text value)
            rest in
        if key == "__proto__" then rest else kept

  abbrev pub insert_member : String → Json → Members → Members
  insert_member key value no_members = member key value no_members
  insert_member key value (member k v others) =
      let later = member k v (insert_member key value others) in
      if p.before key k then member key value (member k v others) else later

  unfoldable mutual
    pub sort_keys : Json → Json
    sort_keys (array items) = array (sort_key_items items)
    sort_keys (object m) = object (sort_key_members m)
    sort_keys (text s) = text s
    sort_keys (natural_number n) = natural_number n
    sort_keys (other_number s) = other_number s
    sort_keys (boolean b) = boolean b
    sort_keys null = null

    pub sort_key_items : Items → Items
    sort_key_items no_items = no_items
    sort_key_items (item first others) = item (sort_keys first) (sort_key_items others)

    pub sort_key_members : Members → Members
    sort_key_members no_members = no_members
    sort_key_members (member key value others) =
        insert_member key (sort_keys value) (sort_key_members others)

-- `digest` is the SHA-256 of `JSON.stringify`, after "sha256:".
abbrev pub hash_canonical : ProviderTexts → (digest : Json → String) → Json → String
hash_canonical p digest value = digest (sort_keys p value)
