-- ===== src/Upstream/Examples.antt =====
-- A panel of three graders, one on the default model and two on models of their own.
use sonsteng_magnum_opus.Prelude.{String, refl, none, some, List, [], ◌∷◌, string_eq, true}
use sonsteng_magnum_opus.Prelude.Json.{Json, undefined, text, arr, nil, cons, obj, field, end}
use sonsteng_magnum_opus.Upstream.{
  Provider, anthropic, openai, google, Env, Grader, own_key, resolve_upstream,
  provider_model_config,
}
use sonsteng_magnum_opus.Upstream.Panel.{resolve_panel_upstreams, panel_case, panel_graders}
use sonsteng_magnum_opus.Upstream.Panel.Own.{IsAccepted, resolve_panel_upstreams_own}

abbrev env : Env
env = record {
  default_anthropic = none;
  default_openai = none;
  default_google = some "";
  allow_anthropic = none;
  allow_openai = some "gpt-x, gpt-y";
  allow_google = none;
  anthropic_api_key = some "hosted-key";
}

abbrev block : String → Json → Json
block provider model = obj (
    field "provider" (text provider)
      (field "api_key" (text " secret-key ") (field "model" model end)))

abbrev panel : Json
panel = arr (
    cons (block "google" undefined) (
      cons (block "openai" (text "gpt-y"))
        (cons (block "anthropic" (text "claude-haiku-4-5")) nil)))

abbrev grader : Provider → String → Grader
grader p model = record {
  mode = own_key;
  provider = p;
  api_key = "secret-key";
  model = model;
  skip_budget = true;
}

abbrev three : List Grader
three =
    grader google "gemini-2.5-flash"
    ∷ grader openai "gpt-y"
    ∷ grader anthropic "claude-haiku-4-5"
    ∷ []

resolve_panel_upstreams_own_example : IsAccepted env undefined panel three
unfolding resolve_panel_upstreams panel_case panel_graders resolve_upstream provider_model_config
resolve_panel_upstreams_own_example = resolve_panel_upstreams_own env undefined panel three refl
