-- ===== src/Observability/Redact.antt =====
-- The redaction of packages/observability/src/index.ts. A value of the type `unknown` is a
-- primitive, an array or an object with its entries in order (no entry is named `__proto__`).
use uscs.Common.{
  ℕ, suc, String, Bool, List, [], ◌∷◌, map, any, ◌||◌, ltb, if◌then◌else◌, codes, to_lower,
  contains, same_codes,
}

mutual
  -- `atom` is `null`, a Boolean, a number or a text, written as a text.
  pub data Value : Type 0 where
    object : Fields → Value
    array : Items → Value
    atom : String → Value

  -- The entries of an object, a key and a value each.
  pub data Fields : Type 0 where
    field : String → Value → Fields → Fields
    no_fields : Fields

  -- The elements of an array.
  pub data Items : Type 0 where
    item : Value → Items → Items
    no_items : Items

abbrev pub redacted : Value
redacted = atom "[redacted]"

-- The alternatives of SECRET_KEY_PATTERN, each found anywhere in the key.
abbrev pub secret_words : List String
secret_words =
    "pass" ∷ "secret" ∷ "token" ∷ "apikey" ∷ "api_key" ∷ "api-key" ∷ "privatekey" ∷ "private_key"
    ∷ "private-key" ∷ "authorization" ∷ "cookie" ∷ "credential" ∷ "session" ∷ "dsn"
    ∷ "connectionstring" ∷ "connection_string" ∷ "connection-string" ∷ "jwt" ∷ []

-- The alternatives of ORIGIN_KEY_PATTERN, each the whole key.
abbrev pub origin_keys : List String
origin_keys =
    "origin" ∷ "originip" ∷ "origin_ip" ∷ "originhost" ∷ "origin_host" ∷ "upstream" ∷ "backendhost"
    ∷ "backend_host" ∷ []

unfoldable pub is_sensitive_key : String → Bool
is_sensitive_key key =
    let lower = map to_lower (codes key) in
    any (λ w. contains lower (codes w)) secret_words
    || any (λ w. same_codes lower (codes w)) origin_keys

unfoldable mutual
  unfolding is_sensitive_key

  pub redact : Value → ℕ → Value
  redact (atom s) depth = if ltb 8 depth then redacted else atom s
  redact (array items) depth =
      let inner = redact_items items (suc depth) in if ltb 8 depth then redacted else array inner
  redact (object fields) depth =
      let inner = redact_fields fields (suc depth) in if ltb 8 depth then redacted else object inner

  pub redact_items : Items → ℕ → Items
  redact_items no_items depth = no_items
  redact_items (item v vs) depth = item (redact v depth) (redact_items vs depth)

  pub redact_fields : Fields → ℕ → Fields
  redact_fields no_fields depth = no_fields
  redact_fields (field key v fs) depth =
      let inner = redact v depth in
      field key (if is_sensitive_key key then redacted else inner) (redact_fields fs depth)
