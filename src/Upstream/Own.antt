-- ===== src/Upstream/Own.antt =====
-- Whose key `resolveUpstream` of app/worker/src/byok.js answers a request with.
use mathlib.Core.Path.{subst}
use sonsteng_magnum_opus.Prelude.{
  String, ◌≡◌, refl, true, false, ◌⊎◌, inl, inr, ◌≤◌, Option, none, some, any, ◌==◌, string_eq, ltb,
  arith, Bool-cases, some_inj,
}
use sonsteng_magnum_opus.Prelude.Text.{is_empty, trim, js_length}
use sonsteng_magnum_opus.Prelude.Json.{Json, undefined, null, text, get, is_object}
use sonsteng_magnum_opus.Upstream.{
  Provider, anthropic, Env, or_else, ModelConfig, provider_model_config, Grader, own_key, hosted,
  upstream, is_nullish, provider_of, key_of, model_of, with_model, with_key, with_provider,
  hosted_upstream, resolve_upstream,
}

-- A model of a provider's list, or its default.
abbrev pub Offers : ModelConfig → String → Type 0
Offers cfg model = (model ≡ cfg.default) ⊎ (any (λ (m : String). m == model) cfg.allow ≡ true)

-- A grader on the key, the provider and the model of a block; it is not charged to the budget.
pub record IsOwn (env : Env) (byok : Json) (g : Grader) : Type 0 where
  pub mode : g.mode ≡ own_key
  pub free : g.skip_budget ≡ true
  pub provider : provider_of (get "provider" byok) ≡ some g.provider
  pub own : key_of (get "api_key" byok) ≡ some g.api_key
  pub key : 8 ≤ js_length g.api_key
  pub chosen : model_of (provider_model_config env g.provider) (get "model" byok) ≡ some g.model
  pub model : Offers (provider_model_config env g.provider) g.model

-- The hosted key is charged to the budget, and only calls Anthropic.
pub record IsHosted (env : Env) (g : Grader) : Type 0 where
  pub mode : g.mode ≡ hosted
  pub charged : g.skip_budget ≡ false
  pub provider : g.provider ≡ anthropic
  pub key : g.api_key ≡ or_else env.anthropic_api_key ""
  pub set : is_empty g.api_key ≡ false
  pub model : g.model ≡ (provider_model_config env anthropic).default

upstream_inj : {a b : Grader} → upstream a ≡ upstream b → a ≡ b
upstream_inj h = ground (arith, h)

model_of-Offers :
    (cfg : ModelConfig) (v : Json) (model : String) → model_of cfg v ≡ some model → Offers cfg model
model_of-Offers cfg (text s) model h = elim (Bool-cases (any (λ (m : String). m == s) cfg.allow)) [
  | inl there ↦ subst (Offers cfg) (ground (arith, rw there at h)) (inr there)
  | inr missing ↦ absurd (ground (arith, rw missing at h))
]
model_of-Offers cfg undefined model h = inl (ground (arith, h))
model_of-Offers cfg null model h = inl (ground (arith, h))
model_of-Offers cfg _ model h = absurd (ground (arith, h))

key_of_long : (v : Json) (key : String) → key_of v ≡ some key → 8 ≤ js_length key
key_of_long (text s) key h = elim (Bool-cases (ltb (js_length (trim s)) 8)) [
  | inl short ↦ absurd (ground (arith, rw short at h))
  | inr long ↦
      subst (λ (k : String). 8 ≤ js_length k) (some_inj (rw long at h)) (ground (arith, long))
]
key_of_long _ key h = absurd (ground (arith, h))

with_model-IsOwn :
    (env : Env) (byok : Json) (p : Provider) (key : String) (o : Option String) (g : Grader)
    → provider_of (get "provider" byok) ≡ some p
    → key_of (get "api_key" byok) ≡ some key
    → model_of (provider_model_config env p) (get "model" byok) ≡ o
    → with_model p key o ≡ upstream g
    → IsOwn env byok g
with_model-IsOwn env byok p key none g named own chosen h = absurd (ground (arith, h))
with_model-IsOwn env byok p key (some m) g named own chosen h =
    subst (IsOwn env byok) (upstream_inj h) (record {
      mode = refl;
      free = refl;
      provider = named;
      own = own;
      key = key_of_long (get "api_key" byok) key own;
      chosen = chosen;
      model = model_of-Offers (provider_model_config env p) (get "model" byok) m chosen;
    })

with_key-IsOwn :
    (env : Env) (p : Provider) (byok : Json) (o : Option String) (g : Grader)
    → provider_of (get "provider" byok) ≡ some p
    → key_of (get "api_key" byok) ≡ o
    → with_key env p byok o ≡ upstream g
    → IsOwn env byok g
with_key-IsOwn env p byok none g named own h = absurd (ground (arith, h))
with_key-IsOwn env p byok (some key) g named own h =
    with_model-IsOwn env byok p key (model_of (provider_model_config env p) (get "model" byok)) g
      named own refl h

with_provider-IsOwn :
    (env : Env) (byok : Json) (o : Option Provider) (g : Grader)
    → provider_of (get "provider" byok) ≡ o
    → with_provider env byok o ≡ upstream g
    → IsOwn env byok g
with_provider-IsOwn env byok none g named h = absurd (ground (arith, h))
with_provider-IsOwn env byok (some p) g named h =
    with_key-IsOwn env p byok (key_of (get "api_key" byok)) g named refl h

pub resolve_upstream-IsOwn :
    (env : Env) (byok : Json) (g : Grader)
    → is_nullish byok ≡ false
    → resolve_upstream env byok ≡ upstream g
    → IsOwn env byok g
unfolding resolve_upstream
resolve_upstream-IsOwn env byok g given h = elim (Bool-cases (is_object byok)) [
  | inl fit ↦
      with_provider-IsOwn env byok (provider_of (get "provider" byok)) g refl (rw (given, fit) at h)
  | inr bad ↦ absurd (ground (arith, rw (given, bad) at h))
]

pub resolve_upstream-IsHosted :
    (env : Env) (byok : Json) (g : Grader)
    → is_nullish byok ≡ true
    → resolve_upstream env byok ≡ upstream g
    → IsHosted env g
unfolding resolve_upstream hosted_upstream
resolve_upstream-IsHosted env byok g gone h =
    elim (Bool-cases (is_empty (or_else env.anthropic_api_key ""))) [
      | inl unset ↦ absurd (ground (arith, rw (gone, unset) at h))
      | inr set ↦ subst (IsHosted env) (upstream_inj (rw (gone, set) at h)) (record {
        mode = refl;
        charged = refl;
        provider = refl;
        key = refl;
        set = set;
        model = refl;
      })
    ]
