-- ===== src/Upstream.antt =====
-- app/worker/src/byok.js: which provider and whose key a request is answered with, and the graders of a
-- panel.
pub mod Own
pub mod Panel
mod Examples
use sonsteng_magnum_opus.Prelude.{
  ℕ, String, Bool, true, false, not, ◌||◌, ◌&&◌, Option, none, some, List, [], ◌∷◌, any, length,
  ◌==◌, string_eq, leb, ltb, nat_beq, if◌then◌else◌,
}
use sonsteng_magnum_opus.Prelude.Text.{is_empty, trim, js_length, comma_list}
use sonsteng_magnum_opus.Prelude.Json.{
  Json, undefined, null, text, get, is_object, is_array, elements, text_of,
}

-- `PROVIDER_NAMES`
pub data Provider : Type 0 where
  anthropic openai google : Provider

abbrev pub provider_named : String → Option Provider
provider_named s =
    if s == "anthropic"
    then some anthropic
    else if s == "openai"
    then some openai
    else if s == "google"
    then some google
    else none

-- The configuration; a variable that is not set is `none`.
pub record Env : Type 0 where
  pub default_anthropic : Option String
  pub default_openai : Option String
  pub default_google : Option String
  pub allow_anthropic : Option String
  pub allow_openai : Option String
  pub allow_google : Option String
  pub anthropic_api_key : Option String

-- `value || fallback`
abbrev pub or_else : Option String → String → String
or_else none fallback = fallback
or_else (some s) fallback = if is_empty s then fallback else s

pub record ModelConfig : Type 0 where
  pub default : String
  pub allow : List String

unfoldable pub provider_model_config : Env → Provider → ModelConfig
provider_model_config env anthropic = record {
  default = or_else env.default_anthropic "claude-haiku-4-5";
  allow = comma_list (or_else env.allow_anthropic "claude-haiku-4-5");
}
provider_model_config env openai = record {
  default = or_else env.default_openai "gpt-6-luna";
  allow = comma_list (or_else env.allow_openai "gpt-6-luna,gpt-4o-mini,gpt-4o");
}
provider_model_config env google = record {
  default = or_else env.default_google "gemini-2.5-flash";
  allow = comma_list (or_else env.allow_google "gemini-2.5-flash");
}

pub data Mode : Type 0 where
  own_key hosted : Mode

pub record Grader : Type 0 where
  pub mode : Mode
  pub provider : Provider
  pub api_key : String
  pub model : String
  pub skip_budget : Bool

pub data UpstreamError : Type 0 where
  not_object bad_provider no_api_key bad_model no_hosted_key : UpstreamError

-- The HTTP status of a refusal.
abbrev pub status : UpstreamError → ℕ
status no_hosted_key = 503
status _ = 400

pub data Upstream : Type 0 where
  refused : UpstreamError → Upstream
  upstream : Grader → Upstream

-- `value == null`
abbrev pub is_nullish : Json → Bool
is_nullish undefined = true
is_nullish null = true
is_nullish _ = false

abbrev pub provider_of : Json → Option Provider
provider_of (text s) = provider_named s
provider_of _ = none

-- The trimmed key, where it is a text of at least eight characters.
abbrev pub key_of : Json → Option String
key_of (text s) = if ltb (js_length (trim s)) 8 then none else some (trim s)
key_of _ = none

-- The model that a block names, or the default one.
abbrev pub model_of : ModelConfig → Json → Option String
model_of cfg (text s) = if any (λ (m : String). m == s) cfg.allow then some s else none
model_of cfg undefined = some cfg.default
model_of cfg null = some cfg.default
model_of cfg _ = none

abbrev pub with_model : Provider → String → Option String → Upstream
with_model provider key none = refused bad_model
with_model provider key (some model) = upstream (record {
  mode = own_key;
  provider = provider;
  api_key = key;
  model = model;
  skip_budget = true;
})

abbrev pub with_key : Env → Provider → Json → Option String → Upstream
with_key env provider byok none = refused no_api_key
with_key env provider byok (some key) =
    with_model provider key (model_of (provider_model_config env provider) (get "model" byok))

abbrev pub with_provider : Env → Json → Option Provider → Upstream
with_provider env byok none = refused bad_provider
with_provider env byok (some provider) = with_key env provider byok (key_of (get "api_key" byok))

-- The hosted demo.
unfoldable pub hosted_upstream : Env → Upstream
unfolding provider_model_config
hosted_upstream env =
    if is_empty (or_else env.anthropic_api_key "")
    then refused no_hosted_key
    else upstream (record {
      mode = hosted;
      provider = anthropic;
      api_key = or_else env.anthropic_api_key "";
      model = (provider_model_config env anthropic).default;
      skip_budget = false;
    })

unfoldable pub resolve_upstream : Env → Json → Upstream
unfolding hosted_upstream
resolve_upstream env byok =
    if is_nullish byok
    then hosted_upstream env
    else if is_object byok
    then with_provider env byok (provider_of (get "provider" byok))
    else refused not_object
