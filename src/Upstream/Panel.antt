-- ===== src/Upstream/Panel.antt =====
-- `resolvePanelUpstreams` of app/worker/src/byok.js: the graders of a memo assessment.
pub mod Own
use sonsteng_magnum_opus.Prelude.{
  ℕ, Bool, true, false, not, ◌&&◌, List, [], ◌∷◌, any, length, nat_beq, if◌then◌else◌,
}
use sonsteng_magnum_opus.Prelude.Json.{Json, is_array, elements}
use sonsteng_magnum_opus.Upstream.{
  Provider, anthropic, openai, google, Env, Grader, Mode, own_key, hosted, UpstreamError, Upstream,
  refused, upstream, is_nullish, resolve_upstream,
}

pub data PanelError : Type 0 where
  both_given wrong_count entry_missing entry_hosted repeated_provider : PanelError
  bad_upstream : UpstreamError → PanelError

pub data Panel : Type 0 where
  panel_refused : PanelError → Panel
  graders : List Grader → Panel

abbrev pub provider_beq : Provider → Provider → Bool
provider_beq anthropic anthropic = true
provider_beq openai openai = true
provider_beq google google = true
provider_beq _ _ = false

abbrev pub is_own : Mode → Bool
is_own own_key = true
is_own hosted = false

-- A grader added before those of the later entries.
abbrev pub and_then : Grader → Panel → Panel
and_then g (panel_refused e) = panel_refused e
and_then g (graders gs) = graders (g ∷ gs)

abbrev pub own_grader : Upstream → Panel → Panel
own_grader (refused e) later = panel_refused (bad_upstream e)
own_grader (upstream g) later =
    if is_own g.mode then and_then g later else panel_refused entry_hosted

-- The loop over the entries, which ends at the first one that is refused.
unfoldable pub panel_graders : Env → List Json → Panel
unfolding resolve_upstream
panel_graders env [] = graders []
panel_graders env (v ∷ vs) =
    let later = panel_graders env vs in
    if is_nullish v then panel_refused entry_missing else own_grader (resolve_upstream env v) later

abbrev pub providers : List Grader → List Provider
providers [] = []
providers (g ∷ gs) = g.provider ∷ providers gs

abbrev pub has_provider : List Provider → Provider → Bool
has_provider ps p = any (λ (q : Provider). provider_beq q p) ps

-- `new Set(…)`
abbrev pub provider_set : List Provider → List Provider
provider_set [] = []
provider_set (p ∷ ps) = let rest = provider_set ps in if has_provider rest p then rest else p ∷ rest

abbrev pub distinct_providers : Panel → Panel
distinct_providers (panel_refused e) = panel_refused e
distinct_providers (graders gs) =
    if nat_beq (length (provider_set (providers gs))) (length gs)
    then graders gs
    else panel_refused repeated_provider

abbrev pub single : Upstream → Panel
single (refused e) = panel_refused (bad_upstream e)
single (upstream g) = graders (g ∷ [])

-- The cases, by whether there is no `byok` and whether there is no `byokPanel`.
unfoldable pub panel_case : Env → Json → Json → Bool → Bool → Panel
unfolding panel_graders resolve_upstream
panel_case env byok byok_panel false false = panel_refused both_given
panel_case env byok byok_panel no_block true = single (resolve_upstream env byok)
panel_case env byok byok_panel true false =
    if is_array byok_panel && nat_beq (length (elements byok_panel)) 3
    then distinct_providers (panel_graders env (elements byok_panel))
    else panel_refused wrong_count

unfoldable pub resolve_panel_upstreams : Env → Json → Json → Panel
unfolding panel_case
resolve_panel_upstreams env byok byok_panel =
    panel_case env byok byok_panel (is_nullish byok) (is_nullish byok_panel)
