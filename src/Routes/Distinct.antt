-- ===== src/Routes/Distinct.antt =====
-- When the routes of an Ingress have distinct ids.
use text.Mathlib.TextLemmas.{append_cancel_left}
use caddy_k8s.Base.{
  ℕ, String, ◌≡◌, refl, ◌∙◌, sym, ap, Bool, true, false, List, ◌==◌, eq_iff, arith, map, Bool-cases,
  inl, inr,
}
use caddy_k8s.Kube.{HttpPath, ServiceBackend, Rule, Ingress}
use caddy_k8s.Hosts.{elem, distinct}
use caddy_k8s.Annotations.Config.{IngressAnnotations}
use caddy_k8s.Routes.Model.{CaddyRoute, SecurityConfig}
use caddy_k8s.Routes.Convert.{host_label, route_id, parent}
use caddy_k8s.Routes.Rules.{Each, done, step, IsRuleRoute}

route_id-host_label :
    (namespace name h h' : String)
    → route_id namespace name h parent ≡ route_id namespace name h' parent
    → host_label h ≡ host_label h'
unfolding route_id
route_id-host_label namespace name h h' e = append_cancel_left "-" _ _ (
    append_cancel_left name _ _ (
      append_cancel_left "-" _ _
        (append_cancel_left namespace _ _ (append_cancel_left "caddy-k8s-" _ _ e))))

abbrev pub Served : Type 0
Served = Rule × List (ℕ × HttpPath × ServiceBackend)

-- The labels of the hosts of the rules that have a path with a service.
abbrev pub labels_of : List Served → List String
labels_of served = map (λ s. host_label s.0.host) served

not_both : (b : Bool) → b ≡ true → b ≡ false → ⊥
not_both b h k = cc

module _ (ing : Ingress) (sec : SecurityConfig) (ann : IngressAnnotations) where
  elem-labels_of :
      (h : String) {served : List Served} {routes : List CaddyRoute}
      → Each (IsRuleRoute ing sec ann) served routes
      → elem (route_id ing.namespace ing.name h parent) (map (λ r. r.id) routes) ≡ true
      → elem (host_label h) (labels_of served) ≡ true
  elem-labels_of h done e = cc
  elem-labels_of h (step {a} {b} route rest) e =
      let id = route_id ing.namespace ing.name h parent in
      elim (Bool-cases (b.id == id)) [
        | inr other ↦ ground (arith, elem-labels_of h rest (ground (arith, e, other)))
        | inl same ↦
            let label =
              route_id-host_label ing.namespace ing.name a.0.host h
                (sym route.id ∙ (eq_iff b.id id).0 same) in
            ground (arith, (eq_iff (host_label a.0.host) (host_label h)).1 label)
      ]

  -- Routes of hosts with distinct labels have distinct ids.
  pub distinct-route_ids :
      {served : List Served} {routes : List CaddyRoute}
      → Each (IsRuleRoute ing sec ann) served routes
      → distinct (labels_of served) ≡ true
      → distinct (map (λ r. r.id) routes) ≡ true
  distinct-route_ids done h = refl
  distinct-route_ids (step {a} {b} {xs} {ys} route rest) h =
      elim (Bool-cases (elem b.id (map (λ r. r.id) ys))) [
        | inl again ↦
            let twice =
              elem-labels_of a.0.host rest
                (ap (λ i. elem i (map (λ r. r.id) ys)) (sym route.id) ∙ again) in
            absurd (not_both (elem (host_label a.0.host) (labels_of xs)) twice (ground (arith, h)))
        | inr new ↦ ground (arith, new, distinct-route_ids rest (ground (arith, h)))
      ]
