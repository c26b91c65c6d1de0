-- ===== src/Tests/Fixtures.antt =====
-- Data that several tests share.
use agentsecrets.Prelude.{true, false, none, some, [], ◌∷◌}
use agentsecrets.Text.{Str, str}
use agentsecrets.Capabilities.{AgentCapabilities}
use agentsecrets.Injector.{Codecs, nil_map, Injection, Request}
use agentsecrets.Tokens.{CapsCodec, CachedToken, Keyring, TokenState, call_failed}
use agentsecrets.Identity.{Context}
use agentsecrets.Requests.{CallRequest}

abbrev pub key : Str
key = str "STRIPE_KEY"

abbrev pub secret : Str
secret = str "sk_live_0123"

abbrev pub reader : AgentCapabilities
reader = record { allowed_secrets = str "stripe_key" ∷ []; denied_secrets = str "ADMIN" ∷ [] }

-- A stand-in for the codecs: every body is the document `null`, and every output is empty.
abbrev pub codecs : Codecs
codecs = record {
  parse_json = λ _. nil_map;
  print_json = λ _. some [];
  parse_query = λ _. ([], false);
  encode_query = λ _. [];
  base64 = λ s. s;
}

abbrev pub outbound : Request
outbound = record { raw_query = []; headers = []; body = some (str "null"); content_length = 4 }

abbrev pub bearer : Injection
bearer = record { style = str "bearer"; target = str "Authorization"; secret_key = key }

abbrev pub at_body : Injection
at_body = record { style = str "body"; target = str "auth.key"; secret_key = key }

abbrev pub token : Str
token = str "tok_secret_1234"

abbrev pub caps_codec : CapsCodec
caps_codec = record { marshal = λ _. some (str "caps"); unmarshal = λ _. some reader }

-- The keychain knows the agent `ci`, with its token and its capabilities.
abbrev pub keyring : Keyring
keyring = record {
  available = true;
  agent_tokens = (str "ci", token) ∷ [];
  agent_capabilities = (str "ci", str "caps") ∷ [];
}

abbrev pub known : CachedToken
known = record {
  token_id = str "t1";
  agent_id = str "a1";
  agent_name = str "ci";
  workspace_id = str "w1";
  project_id = [];
  environment = str "Staging";
  capabilities = reader;
  expires_at = none;
  validated_at = 90;
}

abbrev pub tokens : TokenState
tokens = record { cache = record { tokens = (token, known) ∷ []; ttl = 300 }; keyring = keyring }

abbrev pub no_tokens : TokenState
no_tokens = record { cache = record { tokens = []; ttl = 300 }; keyring = keyring }

abbrev pub ctx : Context
ctx = record {
  workspace_id = str "w1";
  project_id = str "p1";
  environment = str "staging";
  env_token = [];
  revoked_ids = str "t9" ∷ [];
  has_cache = true;
  codec = caps_codec;
  client = some (λ _. call_failed);
  now = 100;
}

abbrev pub call : CallRequest
call = record {
  target_url = str "https://api.stripe.com/v1";
  method = [];
  headers = [];
  body = [];
  injections = bearer ∷ [];
  agent_id = [];
  agent_token = token;
  identity_level = [];
  token_id = [];
  capabilities = none;
}
