-- ===== src/App/Ids.antt =====
-- The ids that a handler of app.go is about: the stale ones, and those of the converted routes.
use caddy_k8s.Base.{
  String, ◌≡◌, refl, ◌∙◌, ap, true, ◌==◌, false, not, ◌&&◌, List, [], ◌∷◌, eq_iff, arith, All,
  Bool-cases, inl, inr,
}
use mathlib.Core.Path.{subst}
use caddy_k8s.Strings.{is_blank}
use caddy_k8s.Kube.{Rule, Ingress}
use caddy_k8s.Hosts.{elem, unique, elem-unique}
use caddy_k8s.Annotations.Config.{IngressAnnotations}
use caddy_k8s.Routes.Model.{CaddyRoute, SecurityConfig}
use caddy_k8s.Routes.Convert.{route_id, parent, redirect_routes}
use caddy_k8s.Routes.Ids.{is_blank-append, is_blank-route_id}
use caddy_k8s.Routes.Rules.{Each, IsRuleRoute, served_rules}
use caddy_k8s.Routes.Guards.{Each-All}
use caddy_k8s.App.Add.{IdVisit, missing_from, stale_ids}

-- A visit of a set of ids meets each of them.
pub record IsIdVisit (order : IdVisit) : Type 0 where
  pub meets : (k : String) (ids : List String) → elem k (order ids) ≡ elem k ids

elem-missing_from :
    (k : String) (new ids : List String)
    → elem k (missing_from new ids) ≡ (elem k ids && not (elem k new))
unfolding missing_from
elem-missing_from k new [] = refl
elem-missing_from k new (id ∷ ids) = ground (arith, eq_iff id k, elem-missing_from k new ids)

pub elem-stale_ids :
    (order : IdVisit)
    → IsIdVisit order
    → (k : String) (old new : List String)
    → elem k (stale_ids order old new) ≡ (elem k old && not (elem k new))
unfolding stale_ids
elem-stale_ids order visit k old new =
    rw (elem-missing_from k new (order (unique old)), visit.meets k (unique old), elem-unique k old)
      refl

elem-All :
    {P : String → Type 0} (ids : List String) → ((k : String) → elem k ids ≡ true → P k) → All P ids
elem-All [] h = tt
elem-All (id ∷ ids) h =
    (h id (ground (arith, eq_iff id id)), elem-All ids (λ k e. h k (ground (arith, e))))

All-elem :
    (P : String → Type 0) (k : String) (ids : List String) → All P ids → elem k ids ≡ true → P k
All-elem P k [] h e = absurd (ground (arith, e))
All-elem P k (id ∷ ids) (h, hs) e = elim (Bool-cases (id == k)) [
  | inl same ↦ subst P ((eq_iff id k).0 same) h
  | inr other ↦ All-elem P k ids hs (ground (arith, e, other))
]

-- What holds of the recorded ids holds of the stale ones.
pub stale_ids-own :
    (home : String → String) (order : IdVisit)
    → IsIdVisit order
    → (old new : List String) → All (λ id. home id ≡ id) old
    → All (λ id. home id ≡ id) (stale_ids order old new)
stale_ids-own home order visit old new own =
    elem-All (stale_ids order old new)
      (λ k e. All-elem _ k old own (ground (arith, e, elem-stale_ids order visit k old new)))

pub redirect_routes-AreNamed :
    (namespace name : String) (rules : List Rule)
    → All (λ r. is_blank r.id ≡ false) (redirect_routes namespace name rules)
unfolding redirect_routes
redirect_routes-AreNamed namespace name [] = tt
redirect_routes-AreNamed namespace name (rule ∷ rules) = elim (Bool-cases (is_blank rule.host)) [
  | inl e ↦ rw e (redirect_routes-AreNamed namespace name rules)
  | inr e ↦ rw e (
    is_blank-append (route_id namespace name rule.host parent) "-http-redirect"
        (is_blank-route_id namespace name rule.host parent),
    redirect_routes-AreNamed namespace name rules,
  )
]

pub convert_ingress-AreNamed :
    (ing : Ingress) (sec : SecurityConfig) (ann : IngressAnnotations) (routes : List CaddyRoute)
    → Each (IsRuleRoute ing sec ann) (served_rules ing.rules) routes
    → All (λ r. is_blank r.id ≡ false) routes
convert_ingress-AreNamed ing sec ann routes each =
    Each-All
      (λ s r route. ap is_blank route.id ∙ is_blank-route_id ing.namespace ing.name s.0.host parent)
      each
