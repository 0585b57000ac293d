-- ===== src/Upstream/Panel/Own.antt =====
-- Whose keys the graders of `resolvePanelUpstreams` of app/worker/src/byok.js use.
use mathlib.Core.Path.{subst}
use sonsteng_magnum_opus.Prelude.{
  ℕ, ◌≡◌, refl, ◌∙◌, Bool, true, false, not, ◌&&◌, ◌||◌, inl, inr, List, [], ◌∷◌, length, string_eq,
  nat_beq, nat_beq_iff, arith, Bool-cases, both_true, either, ap, if◌then◌else◌,
}
use sonsteng_magnum_opus.Prelude.Json.{Json, is_array, elements}
use sonsteng_magnum_opus.Upstream.{
  Provider, anthropic, openai, google, Env, Grader, Mode, Upstream, refused, upstream, is_nullish,
  resolve_upstream,
}
use sonsteng_magnum_opus.Upstream.Panel.{
  Panel, graders, panel_refused, entry_hosted, entry_missing, providers, has_provider, is_own,
  and_then, own_grader, panel_graders, provider_set, distinct_providers, single, panel_case,
  resolve_panel_upstreams,
}
use sonsteng_magnum_opus.Upstream.Own.{
  IsOwn, IsHosted, resolve_upstream-IsOwn, resolve_upstream-IsHosted,
}

graders_inj : {a b : List Grader} → graders a ≡ graders b → a ≡ b
graders_inj h = ground (arith, h)

-- A grader for every entry, in their order, each on what its own entry gives.
abbrev pub Owned : Env → List Json → List Grader → Type 0
Owned env [] [] = Unit
Owned env [] (g ∷ gs) = ⊥
Owned env (v ∷ vs) [] = ⊥
Owned env (v ∷ vs) (g ∷ gs) = IsOwn env v g × Owned env vs gs

Owned-length :
    (env : Env) (vs : List Json) (gs : List Grader) → Owned env vs gs → length gs ≡ length vs
Owned-length env [] [] own = refl
Owned-length env [] (g ∷ gs) own = absurd own
Owned-length env (v ∷ vs) [] own = absurd own
Owned-length env (v ∷ vs) (g ∷ gs) own = omega (arith, Owned-length env vs gs own.1)

and_then-Owned :
    (env : Env) (v : Json) (vs : List Json) (g : Grader) (later : Panel) (gs : List Grader)
    → IsOwn env v g
    → ((hs : List Grader) → later ≡ graders hs → Owned env vs hs)
    → and_then g later ≡ graders gs
    → Owned env (v ∷ vs) gs
and_then-Owned env v vs g (panel_refused e) gs own f h = absurd (ground (arith, h))
and_then-Owned env v vs g (graders hs) gs own f h =
    subst (λ (l : List Grader). Owned env (v ∷ vs) l) (graders_inj h) (own, f hs refl)

own_grader-Owned :
    (env : Env) (v : Json) (vs : List Json) (u : Upstream) (later : Panel) (gs : List Grader)
    → ((g : Grader) → u ≡ upstream g → IsOwn env v g)
    → ((hs : List Grader) → later ≡ graders hs → Owned env vs hs)
    → own_grader u later ≡ graders gs
    → Owned env (v ∷ vs) gs
own_grader-Owned env v vs (refused e) later gs own f h = absurd (ground (arith, h))
own_grader-Owned env v vs (upstream g) later gs own f h =
    let is = own g refl in
    and_then-Owned env v vs g later gs is f (
      subst
        (λ (m : Mode).
          (if is_own m then and_then g later else panel_refused entry_hosted) ≡ graders gs)
        is.mode h)

panel_graders-Owned :
    (env : Env) (vs : List Json) (gs : List Grader)
    → panel_graders env vs ≡ graders gs
    → Owned env vs gs
unfolding panel_graders
panel_graders-Owned env [] gs h = subst (λ (l : List Grader). Owned env [] l) (graders_inj h) tt
panel_graders-Owned env (v ∷ vs) gs h = elim (Bool-cases (is_nullish v)) [
  | inl gone ↦ absurd (ground (arith, rw gone at h))
  | inr given ↦
      own_grader-Owned env v vs (resolve_upstream env v) (panel_graders env vs) gs
        (λ g. resolve_upstream-IsOwn env v g given) (panel_graders-Owned env vs)
        (subst
          (λ (b : Bool).
            (if b
              then panel_refused entry_missing
              else own_grader (resolve_upstream env v) (panel_graders env vs))
            ≡ graders gs)
          given h)
]

all_providers : (Provider → Bool) → Bool
all_providers f = f anthropic && f openai && f google

all_providers_lem : (f : Provider → Bool) → all_providers f ≡ true → (p : Provider) → f p ≡ true
unfolding all_providers
all_providers_lem f h anthropic =
    (both_true (f anthropic) (f openai) (both_true _ (f google) h).0).0
all_providers_lem f h openai = (both_true (f anthropic) (f openai) (both_true _ (f google) h).0).1
all_providers_lem f h google = (both_true (f anthropic && f openai) (f google) h).1

covered : Provider → Provider → Provider → Provider → Bool
covered a b c p =
    not (nat_beq (length (provider_set (a ∷ b ∷ c ∷ []))) 3) || has_provider (a ∷ b ∷ c ∷ []) p

all_covered : (a b c p : Provider) → covered a b c p ≡ true
unfolding covered all_providers
all_covered a b c p =
    all_providers_lem (covered a b c)
      (all_providers_lem (λ (c : Provider). all_providers (covered a b c))
        (all_providers_lem
          (λ (b : Provider). all_providers (λ (c : Provider). all_providers (covered a b c)))
          (all_providers_lem
            (λ (a : Provider).
              all_providers
                (λ (b : Provider). all_providers (λ (c : Provider). all_providers (covered a b c))))
            refl a)
          b)
        c)
      p

-- Three providers in a set of three are all there.
three_cover :
    (gs : List Grader)
    → length gs ≡ 3
    → length (provider_set (providers gs)) ≡ length gs
    → (p : Provider) → has_provider (providers gs) p ≡ true
unfolding covered
three_cover (a ∷ b ∷ c ∷ []) n h p =
    either (not (nat_beq (length (provider_set (providers (a ∷ b ∷ c ∷ [])))) 3))
      (has_provider (providers (a ∷ b ∷ c ∷ [])) p) (all_covered a.provider b.provider c.provider p)
      (ap (λ (k : ℕ). not (nat_beq k 3)) h)
three_cover _ n h p = absurd (ground (arith, n))

-- What an accepted request yields.
pub data IsAccepted (env : Env) (byok byok_panel : Json) : List Grader → Type 0 where
  by_host :
      (g : Grader)
      → is_nullish byok_panel ≡ true
      → is_nullish byok ≡ true
      → IsHosted env g
      → IsAccepted env byok byok_panel (g ∷ [])
  by_block :
      (g : Grader)
      → is_nullish byok_panel ≡ true
      → is_nullish byok ≡ false
      → IsOwn env byok g
      → IsAccepted env byok byok_panel (g ∷ [])
  by_panel :
      (gs : List Grader)
      → is_nullish byok_panel ≡ false
      → is_nullish byok ≡ true
      → length gs ≡ 3
      → Owned env (elements byok_panel) gs
      → ((p : Provider) → has_provider (providers gs) p ≡ true)
      → IsAccepted env byok byok_panel gs

single-IsAccepted :
    (env : Env) (byok byok_panel : Json) (u : Upstream) (gs : List Grader)
    → is_nullish byok_panel ≡ true
    → ((g : Grader) → u ≡ upstream g → IsAccepted env byok byok_panel (g ∷ []))
    → single u ≡ graders gs
    → IsAccepted env byok byok_panel gs
single-IsAccepted env byok byok_panel (refused e) gs alone f h = absurd (ground (arith, h))
single-IsAccepted env byok byok_panel (upstream g) gs alone f h =
    subst (IsAccepted env byok byok_panel) (graders_inj h) (f g refl)

distinct-IsAccepted :
    (env : Env) (byok byok_panel : Json) (q : Panel) (gs : List Grader)
    → is_nullish byok_panel ≡ false
    → is_nullish byok ≡ true
    → length (elements byok_panel) ≡ 3
    → ((hs : List Grader) → q ≡ graders hs → Owned env (elements byok_panel) hs)
    → distinct_providers q ≡ graders gs
    → IsAccepted env byok byok_panel gs
distinct-IsAccepted env byok byok_panel (panel_refused e) gs given no_block n f h =
    absurd (ground (arith, h))
distinct-IsAccepted env byok byok_panel (graders hs) gs given no_block n f h =
    let own = f hs refl in
    let count = Owned-length env (elements byok_panel) hs own in
    elim (Bool-cases (nat_beq (length (provider_set (providers hs))) (length hs))) [
      | inr repeated ↦ absurd (ground (arith, rw repeated at h))
      | inl distinct ↦ subst (IsAccepted env byok byok_panel) (graders_inj (rw distinct at h)) (
          by_panel hs given no_block (count ∙ n) own
            (three_cover hs (count ∙ n) ((nat_beq_iff _ (length hs)).0 distinct)))
    ]

by_one :
    (env : Env) (byok byok_panel : Json) (g : Grader) (b : Bool)
    → is_nullish byok_panel ≡ true
    → is_nullish byok ≡ b
    → resolve_upstream env byok ≡ upstream g
    → IsAccepted env byok byok_panel (g ∷ [])
by_one env byok byok_panel g true alone e h =
    by_host g alone e (resolve_upstream-IsHosted env byok g e h)
by_one env byok byok_panel g false alone e h =
    by_block g alone e (resolve_upstream-IsOwn env byok g e h)

panel_case-IsAccepted :
    (env : Env) (byok byok_panel : Json) (b p : Bool) (gs : List Grader)
    → is_nullish byok ≡ b
    → is_nullish byok_panel ≡ p
    → panel_case env byok byok_panel b p ≡ graders gs
    → IsAccepted env byok byok_panel gs
unfolding panel_case
panel_case-IsAccepted env byok byok_panel false false gs e f h = absurd (ground (arith, h))
panel_case-IsAccepted env byok byok_panel true true gs e f h =
    single-IsAccepted env byok byok_panel (resolve_upstream env byok) gs f
      (λ g. by_one env byok byok_panel g true f e) h
panel_case-IsAccepted env byok byok_panel false true gs e f h =
    single-IsAccepted env byok byok_panel (resolve_upstream env byok) gs f
      (λ g. by_one env byok byok_panel g false f e) h
panel_case-IsAccepted env byok byok_panel true false gs e f h =
    elim (Bool-cases (is_array byok_panel && nat_beq (length (elements byok_panel)) 3)) [
      | inr bad ↦ absurd (ground (arith, rw bad at h))
      | inl fit ↦
          distinct-IsAccepted env byok byok_panel (panel_graders env (elements byok_panel)) gs f e
            ((nat_beq_iff _ 3).0 (both_true (is_array byok_panel) _ fit).1)
            (panel_graders-Owned env (elements byok_panel)) (rw fit at h)
    ]

-- A request without a panel has one grader: on the hosted key, charged to the budget, where it brings no
-- block, and on the key, the provider and the model of its block otherwise. A panel has three graders, each
-- on the key, the provider and the model of its own entry, which are a key of at least eight characters and
-- a model that the provider offers, and one for each of the three providers; none is charged to the budget.
pub resolve_panel_upstreams_own :
    (env : Env) (byok byok_panel : Json) (gs : List Grader)
    → resolve_panel_upstreams env byok byok_panel ≡ graders gs
    → IsAccepted env byok byok_panel gs
unfolding resolve_panel_upstreams
resolve_panel_upstreams_own env byok byok_panel gs h =
    panel_case-IsAccepted env byok byok_panel (is_nullish byok) (is_nullish byok_panel) gs refl refl
      h
