-- ===== src/WafMap.antt =====
-- The ConfigMap with the firewall rules of an Ingress: waf_cm.go. Log calls are left out.
pub mod Ensured
use Prim.Native.String.{[], ◌∷◌, char_at}
use caddy_k8s.Base.{
  Char, code, String, ◌<>◌, Bool, true, false, not, ◌||◌, Option, none, some, List, [], ◌∷◌, ◌==◌,
  nat_eq, if◌then◌else◌,
}
use caddy_k8s.Dict.{get_text}
use caddy_k8s.Kube.{
  Ingress, OwnerReference, ConfigMap, Read, there, not_found, unread, Creation, created,
  already_exists, uncreated, Kube,
}
use caddy_k8s.Strings.{is_blank, trim_space, to_lower}
use caddy_k8s.Annotations.Names
use caddy_k8s.Admin.Client.{Fetched, found, failure}

abbrev pub waf_cm_directives_key : String
waf_cm_directives_key = "directives"

unfoldable pub default_waf_directives : String
default_waf_directives =
    "# Per-Ingress Coraza WAF directives.\n"
    <> ("# Lines starting with '#' and blank lines are ignored by caddy-k8s.\n"
        <> ("#\n"
            <> ("# Directives here are appended after the OWASP CRS Includes, so you can:\n"
                <> ("#   Disable a rule:           SecRuleRemoveById 920350\n"
                    <> ("#   Restrict a rule's target: SecRuleUpdateTargetById 942100 \"!ARGS:search\"\n"
                        <> ("#   Add a custom rule:        SecRule ARGS \"@contains badword\" \"id:1001,phase:2,deny,status:400\"\n"
                            <> ("#\n"
                                <> "# SecRuleEngine is controlled by the caddy.ingress/waf annotation — do not set it here.\n")))))))

unfoldable pub waf_config_map_name : String → String
waf_config_map_name ing_name = ing_name <> "-waf-rules"

-- The characters that the verb `%q` escapes, among those that are printable.
escaped : String → String
escaped [] = ""
escaped (c ∷ s) =
    let rest = escaped s in
    if nat_eq (code c) b'"' || nat_eq (code c) b'\\' then char_at "\\" 0 ∷ (c ∷ rest) else c ∷ rest

-- The verb `%q` for printable texts, as names of Kubernetes objects are.
unfoldable pub quote : String → String
unfolding escaped
quote s = "\"" <> (escaped s <> "\"")

-- The merge patch that names the ConfigMap.
unfoldable pub annotation_patch : String → String
annotation_patch cm_name =
    "{\"metadata\":{\"annotations\":{"
    <> (quote Names.annotation_waf_rules_config_map <> (":" <> (quote cm_name <> "}}}")))

unfoldable pub waf_config_map : String → String → Ingress → ConfigMap
waf_config_map namespace cm_name ing = record {
  name = cm_name;
  namespace = namespace;
  labels = ("app.kubernetes.io/managed-by", "caddy-k8s") ∷ ("caddy.ingress/ingress", ing.name) ∷ [];
  owner_references =
      record {
        api_version = "networking.k8s.io/v1";
        kind = "Ingress";
        name = ing.name;
        uid = ing.uid;
        controller = false;
        block_owner_deletion = false;
      }
      ∷ [];
  contents = (waf_cm_directives_key, default_waf_directives) ∷ [];
}

-- The annotation asks for the firewall.
unfoldable pub wants_waf : Ingress → Bool
wants_waf ing =
    let waf = to_lower (trim_space (get_text Names.annotation_waf ing.annotations)) in
    waf == "on" || waf == "detection"

module _ (kube : Kube) where
  open kube use {Objects}

  -- A ConfigMap that another writer created meanwhile is no error.
  abbrev creation_error : Creation → Option String
  creation_error created = none
  creation_error already_exists = none
  creation_error (uncreated e) = some e

  abbrev pub create_unless :
      Read (List (String × String)) → ConfigMap → Objects → Option String × Objects
  create_unless (there contents) cm o = (none, o)
  create_unless (unread e) cm o = (some ("get configmap: " <> e), o)
  create_unless not_found cm o =
      let (made, o') = kube.create_config_map cm o in (creation_error made, o')

  unfoldable pub create_waf_config_map_if_absent :
      String → String → Ingress → Objects → Option String × Objects
  create_waf_config_map_if_absent namespace cm_name ing o =
      create_unless (kube.get_config_map namespace cm_name o) (waf_config_map namespace cm_name ing)
        o

  -- After the creation: the Ingress is patched, and an error of the patch is only logged.
  abbrev pub annotated :
      Option String → String → String → String → Objects → Fetched String × Objects
  annotated (some e) namespace name cm_name o =
      (failure ("create waf configmap " <> (namespace <> ("/" <> (cm_name <> (": " <> e))))), o)
  annotated none namespace name cm_name o =
      let (e, o') = kube.patch_ingress namespace name (annotation_patch cm_name) o in
      (found cm_name, o')

  unfoldable pub ensure_waf_config_map : Ingress → Objects → Fetched String × Objects
  ensure_waf_config_map ing o =
      let existing = trim_space (get_text Names.annotation_waf_rules_config_map ing.annotations) in
      let cm_name = waf_config_map_name ing.name in
      let (e, o') = create_waf_config_map_if_absent ing.namespace cm_name ing o in
      if not (wants_waf ing)
      then (found "", o)
      else if not (is_blank existing)
      then (found existing, o)
      else annotated e ing.namespace ing.name cm_name o'
