-- ===== src/WafMap/Ensured.antt =====
-- What the ConfigMaps are after `ensureWAFConfigMap` of waf_cm.go.
use caddy_k8s.Base.{
  String, ◌≡◌, refl, ◌∙◌, Bool, true, false, ap, ◌⊎◌, inl, inr, Bool-cases, Option, some, ◌&&◌,
  none, [], ◌∷◌, ◌==◌, eq_iff, arith, if◌then◌else◌,
}
use caddy_k8s.Dict.{Dict, get_text}
use caddy_k8s.Kube.{
  Ingress, ConfigMap, Read, there, not_found, unread, Creation, created, already_exists, uncreated,
  Kube,
}
use caddy_k8s.Strings.{is_blank, trim_space}
use caddy_k8s.Annotations.Names
use caddy_k8s.Admin.Client.{Fetched, found, failure}
use caddy_k8s.WafMap.{
  waf_cm_directives_key, default_waf_directives, waf_config_map_name, waf_config_map,
  create_waf_config_map_if_absent, wants_waf, annotation_patch, annotated, ensure_waf_config_map,
}

-- The contents that there are, or the default ones.
abbrev pub contents_or_default : Read (Dict String) → Dict String
contents_or_default (there contents) = contents
contents_or_default not_found = (waf_cm_directives_key, default_waf_directives) ∷ []
contents_or_default (unread e) = (waf_cm_directives_key, default_waf_directives) ∷ []

-- The name is to be had: the ConfigMap is there, is created, or another has created it meanwhile.
abbrev pub goes_well : Read (Dict String) → Creation → Bool
goes_well (there contents) made = true
goes_well (unread e) made = false
goes_well not_found created = true
goes_well not_found already_exists = true
goes_well not_found (uncreated e) = false

abbrev pub is_created : Creation → Bool
is_created created = true
is_created already_exists = false
is_created (uncreated e) = false

-- What the ConfigMap holds is known: it was there, or it is created.
abbrev pub is_settled : Read (Dict String) → Creation → Bool
is_settled (there contents) made = true
is_settled (unread e) made = false
is_settled not_found made = is_created made

abbrev pub name_of : Fetched String → Option String
name_of (found name) = some name
name_of (failure e) = none

abbrev is_none : Option String → Bool
is_none none = true
is_none (some e) = false

read_cases :
    (r : Read (Dict String))
    → ((contents : Dict String) × (r ≡ there contents))
      ⊎ ((r ≡ not_found) ⊎ ((e : String) × (r ≡ unread e)))
read_cases (there contents) = inl (contents, refl)
read_cases not_found = inr (inl refl)
read_cases (unread e) = inr (inr (e, refl))

creation_cases :
    (c : Creation) → (c ≡ created) ⊎ ((c ≡ already_exists) ⊎ ((e : String) × (c ≡ uncreated e)))
creation_cases created = inl refl
creation_cases already_exists = inr (inl refl)
creation_cases (uncreated e) = inr (inr (e, refl))

is_created-created : (c : Creation) → is_created c ≡ true → c ≡ created
is_created-created created h = refl
is_created-created already_exists h = cc
is_created-created (uncreated e) h = cc

false-true : false ≡ true → ⊥
false-true h = cc

module _ (kube : Kube) where
  open kube use {Objects, get_config_map, create_config_map, patch_ingress}

  -- An API server that keeps its word about what it created, and keeps the ConfigMaps when an Ingress is
  -- patched. It may refuse a creation.
  pub record IsLawful : Type 0 where
    pub get-create :
        (cm : ConfigMap) (o : Objects) (namespace name : String)
        → get_config_map cm.namespace cm.name o ≡ not_found
        → (create_config_map cm o).0 ≡ created
        → get_config_map namespace name (create_config_map cm o).1 ≡ (
            if cm.namespace == namespace && cm.name == name
            then there cm.contents
            else get_config_map namespace name o)
    pub get-patch :
        (ns n patch : String) (o : Objects) (namespace name : String)
        → get_config_map namespace name (patch_ingress ns n patch o).1
          ≡ get_config_map namespace name o

  module _ (lawful : IsLawful) where
    open lawful use {get-create, get-patch}

    -- What is read afterwards: the contents that were there or the default ones at one place, and the
    -- same as before elsewhere.
    abbrev pub IsEnsured : String → String → Objects → Objects → Type 0
    IsEnsured ns n o o' =
        (namespace name : String)
        → get_config_map namespace name o' ≡ (
            if ns == namespace && n == name
            then there (contents_or_default (get_config_map ns n o))
            else get_config_map namespace name o)

    name_of-annotated :
        (ns name n : String) (e : Option String) (o : Objects)
        → name_of (annotated kube e ns name n o).0 ≡ (if is_none e then some n else none)
    name_of-annotated ns name n none o = refl
    name_of-annotated ns name n (some t) o = refl

    get-annotated :
        (ns ing n : String) (e : Option String) (o : Objects) (namespace name : String)
        → get_config_map namespace name (annotated kube e ns ing n o).1
          ≡ get_config_map namespace name o
    get-annotated ns ing n none o namespace name =
        get-patch ns ing (annotation_patch n) o namespace name
    get-annotated ns ing n (some t) o namespace name = refl

    create-name :
        (ns n : String) (ing : Ingress) (o : Objects)
        → let (e, o') = create_waf_config_map_if_absent kube ns n ing o in
          is_none e
          ≡ goes_well (get_config_map ns n o) (create_config_map (waf_config_map ns n ing) o).0
    unfolding create_waf_config_map_if_absent
    create-name ns n ing o = elim (read_cases (get_config_map ns n o)) [
      | inl (contents, e) ↦ rw e refl
      | inr (inr (t, e)) ↦ rw e refl
      | inr (inl e) ↦ elim (creation_cases (create_config_map (waf_config_map ns n ing) o).0) [
        | inl c ↦ rw (e, c) refl
        | inr (inl c) ↦ rw (e, c) refl
        | inr (inr (t, c)) ↦ rw (e, c) refl
      ]
    ]

    create-IsEnsured :
        (ns n : String) (ing : Ingress) (o : Objects)
        → is_settled (get_config_map ns n o) (create_config_map (waf_config_map ns n ing) o).0
          ≡ true
        → IsEnsured ns n o (create_waf_config_map_if_absent kube ns n ing o).1
    unfolding create_waf_config_map_if_absent waf_config_map
    create-IsEnsured ns n ing o settled namespace name = elim (read_cases (get_config_map ns n o)) [
      | inl (contents, e) ↦ rw e (ground (arith, e, eq_iff ns namespace, eq_iff n name))
      | inr (inr (t, e)) ↦ absurd (false-true (rw e at settled))
      | inr (inl e) ↦ rw e (
          get-create (waf_config_map ns n ing) o namespace name e
            (is_created-created _ (rw e at settled)))
    ]

    -- Where the firewall is on and no ConfigMap is named, whatever the API server answers: the conventional
    -- name is returned where the ConfigMap was there, was created, or was created by another meanwhile,
    -- and an error where the read failed or the creation was refused. Where it was there or was created,
    -- it has the contents that it had, or the default ones, and every other ConfigMap is as it was.
    pub ensure_waf_config_map-IsEnsured :
        (ing : Ingress) (o : Objects)
        → wants_waf ing ≡ true
        → is_blank (trim_space (get_text Names.annotation_waf_rules_config_map ing.annotations))
          ≡ true
        → let ns = ing.namespace in
          let n = waf_config_map_name ing.name in
          let read = get_config_map ns n o in
          let made = (create_config_map (waf_config_map ns n ing) o).0 in
          let (r, o') = ensure_waf_config_map kube ing o in
          (name_of r ≡ (if goes_well read made then some n else none))
          × ((namespace name : String)
              → get_config_map namespace name o' ≡ (
                  if is_settled read made
                  then (if ns == namespace && n == name
                      then there (contents_or_default read)
                      else get_config_map namespace name o)
                  else get_config_map namespace name o'))
    unfolding ensure_waf_config_map
    ensure_waf_config_map-IsEnsured ing o wanted unnamed =
        let ns = ing.namespace in
        let n = waf_config_map_name ing.name in
        let (e, o1) = create_waf_config_map_if_absent kube ns n ing o in
        rw (wanted, unnamed)
          (
            name_of-annotated ns ing.name n e o1
                ∙ ap (λ b. if b then some n else none) (create-name ns n ing o),
            λ namespace name.
                elim (Bool-cases (
                  is_settled (get_config_map ns n o)
                    (create_config_map (waf_config_map ns n ing) o).0)) [
                      | inr unsettled ↦ rw unsettled refl
                      | inl settled ↦ rw settled (
                          get-annotated ns ing.name n e o1 namespace name
                          ∙ create-IsEnsured ns n ing o settled namespace name)
                    ],
          )
