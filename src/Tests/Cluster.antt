-- ===== src/Tests/Cluster.antt =====
-- An API server of Kubernetes for the tests: it keeps ConfigMaps by namespace and name.
use caddy_k8s.Base.{
  String, ◌≡◌, refl, Bool, true, ◌&&◌, Option, none, some, [], ◌∷◌, ◌==◌, if◌then◌else◌, Bool-cases,
  inl, inr,
}
use caddy_k8s.Dict.{Dict}
use caddy_k8s.Kube.{ConfigMap, Read, there, not_found, created, Kube}
use caddy_k8s.WafMap.{waf_config_map, waf_config_map_name, ensure_waf_config_map, wants_waf}
use caddy_k8s.WafMap.Ensured.{
  IsLawful, goes_well, is_settled, name_of, contents_or_default, ensure_waf_config_map-IsEnsured,
}
use caddy_k8s.Tests.Samples.{ingress}

abbrev pub Store : Type 0
Store = String → String → Option (Dict String)

abbrev pub read : Option (Dict String) → Read (Dict String)
read none = not_found
read (some contents) = there contents

abbrev pub kube : Kube
kube = record {
  Objects = Store;
  get_config_map = λ namespace name o. read (o namespace name);
  get_secret = λ namespace name o. none;
  create_config_map = λ cm o. (
    created,
    λ namespace name.
        if cm.namespace == namespace && cm.name == name then some cm.contents else o namespace name,
  );
  patch_ingress = λ namespace name patch o. (none, o);
}

abbrev pub empty : Store
empty namespace name = none

read-if :
    (b : Bool) (contents : Dict String) (o : Option (Dict String))
    → read (if b then some contents else o) ≡ (if b then there contents else read o)
read-if b contents o = elim (Bool-cases b) [ inl e ↦ rw e refl | inr e ↦ rw e refl ]

kube-IsLawful : IsLawful kube
kube-IsLawful = record {
  get-create = λ cm o namespace name missing made.
      read-if (cm.namespace == namespace && cm.name == name) cm.contents (o namespace name);
  get-patch = λ ns n patch o namespace name. refl;
}

-- An Ingress that asks for the firewall and names no ConfigMap.
abbrev guarded_ingress : caddy_k8s.Kube.Ingress
guarded_ingress = record ingress {
  annotations = (caddy_k8s.Annotations.Names.annotation_waf, "on") ∷ [];
}

guarded_wants_waf : wants_waf guarded_ingress ≡ true
unfolding wants_waf caddy_k8s.Strings.to_lower caddy_k8s.Strings.trim_space caddy_k8s.Dict.get_text
guarded_wants_waf = refl

guarded_unnamed :
    caddy_k8s.Strings.is_blank (
      caddy_k8s.Strings.trim_space (
        caddy_k8s.Dict.get_text caddy_k8s.Annotations.Names.annotation_waf_rules_config_map
          guarded_ingress.annotations))
    ≡ true
unfolding caddy_k8s.Strings.trim_space caddy_k8s.Dict.get_text
guarded_unnamed = refl

ensure_waf_config_map-IsEnsured_example :
    let n = waf_config_map_name "front" in
    let read = kube.get_config_map "shop" n empty in
    let made = (kube.create_config_map (waf_config_map "shop" n guarded_ingress) empty).0 in
    let (r, o') = ensure_waf_config_map kube guarded_ingress empty in
    (name_of r ≡ (if goes_well read made then some n else none))
    × ((namespace name : String)
        → kube.get_config_map namespace name o' ≡ (
            if is_settled read made
            then (if "shop" == namespace && n == name
                then there (contents_or_default read)
                else kube.get_config_map namespace name empty)
            else kube.get_config_map namespace name o'))
ensure_waf_config_map-IsEnsured_example =
    ensure_waf_config_map-IsEnsured kube kube-IsLawful guarded_ingress empty guarded_wants_waf
      guarded_unnamed
