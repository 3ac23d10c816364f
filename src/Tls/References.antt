-- ===== src/Tls/References.antt =====
-- Which Ingress references which secret after each operation.
use caddy_k8s.Base.{
  String, ◌≡◌, refl, sym, ap, ◌∙◌, Bool, true, not, ◌&&◌, Option, none, some, List, [], ◌∷◌, ◌==◌,
  eq_iff, arith, if◌then◌else◌, is_empty, any, Bool-cases, Option-cases, inl, inr, ◌>>=◌,
}
use caddy_k8s.Dict.{Dict, lookup, erase, lookup-insert, lookup-erase}
use caddy_k8s.Kube.{Ingress, IngressTls, Cluster}
use caddy_k8s.Strings.{is_blank}
use caddy_k8s.Admin.Client.{Net}
use caddy_k8s.Tls.Certs.{
  TlsCert, TlsManager, object_key, or_new, track, entry_cert, release, release_entries,
  remove_from_ingress, push_cert_to_caddy, pushed, push, load_entry, load_entries,
  load_from_ingress,
}

-- The mark of an Ingress at a secret.
abbrev pub reference : TlsManager → String → String → Option Bool
reference m k i = lookup k m.secret_to_ingress >>= lookup i

-- An entry of the Ingress names the secret.
abbrev pub names_secret : Ingress → String → List IngressTls → Bool
names_secret ing k entries =
    any (λ tls. not (is_blank tls.secret_name) && object_key ing.namespace tls.secret_name == k)
      entries

lookup-or_new : (o : Option (Dict Bool)) (i : String) → lookup i (or_new o) ≡ (o >>= lookup i)
unfolding lookup
lookup-or_new none i = refl
lookup-or_new (some refs) i = refl

reference-track :
    (j i : String) (m : TlsManager) (k l : String)
    → reference (track j i m) k l ≡ (if j == k && i == l then some true else reference m k l)
unfolding track
reference-track j i m k l = elim (Bool-cases (j == k)) [
  | inl same ↦
      rw (lookup-insert j k _ m.secret_to_ingress, same)
        (lookup-insert i l true _
          ∙ ap (λ o. if i == l then some true else o)
              (lookup-or_new (lookup j m.secret_to_ingress) l
                ∙ ap (λ n. lookup n m.secret_to_ingress >>= lookup l) ((eq_iff j k).0 same)))
  | inr other ↦ rw (lookup-insert j k _ m.secret_to_ingress, other) refl
]

lookup_empty : (l : String) (m : Dict Bool) → is_empty m ≡ true → lookup l m ≡ none
unfolding lookup
lookup_empty l [] h = refl
lookup_empty l (e ∷ m) h = cc

reference-release :
    (j i : String) (m : TlsManager) (k l : String)
    → reference (release j i m) k l ≡ (if j == k && i == l then none else reference m k l)
unfolding release
reference-release j i m k l = elim (Option-cases (lookup j m.secret_to_ingress)) [
  | inl e ↦
      rw (release, e)
        (elim (Bool-cases (j == k)) [
          | inl same ↦ rw (same, sym ((eq_iff j k).0 same), e) (ground arith)
          | inr other ↦ rw other refl
        ])
  | inr (refs, e) ↦ elim (Bool-cases (is_empty (erase i refs))) [
    | inl last ↦
        rw (release, e, last, lookup-erase j k m.secret_to_ingress)
          (elim (Bool-cases (j == k)) [
            | inl same ↦
                rw (same, sym ((eq_iff j k).0 same), e)
                  (sym (lookup_empty l (erase i refs) last) ∙ lookup-erase i l refs)
            | inr other ↦ rw other refl
          ])
    | inr left ↦
        rw (release, e, left, lookup-insert j k (erase i refs) m.secret_to_ingress)
          (elim (Bool-cases (j == k)) [
            | inl same ↦ rw (same, sym ((eq_iff j k).0 same), e) (lookup-erase i l refs)
            | inr other ↦ rw other refl
          ])
  ]
]

reference-release_entries :
    (ing : Ingress) (entries : List IngressTls) (m : TlsManager) (k l : String)
    → reference (release_entries ing entries m) k l ≡ (
        if names_secret ing k entries && object_key ing.namespace ing.name == l
        then none
        else reference m k l)
unfolding release_entries
reference-release_entries ing [] m k l = refl
reference-release_entries ing (tls ∷ rest) m k l =
    let j = object_key ing.namespace tls.secret_name in
    let i = object_key ing.namespace ing.name in
    ground (
      arith,
      reference-release_entries ing rest m k l,
      reference-release_entries ing rest (release j i m) k l,
      reference-release j i m k l,
    )

-- After an Ingress is removed, it references none of the secrets that it names, and every other
-- reference is as it was.
pub reference-remove_from_ingress :
    (ing : Ingress) (m : TlsManager) (k l : String)
    → reference (remove_from_ingress ing m) k l ≡ (
        if names_secret ing k ing.tls && object_key ing.namespace ing.name == l
        then none
        else reference m k l)
unfolding remove_from_ingress
reference-remove_from_ingress ing m k l = reference-release_entries ing ing.tls m k l

module _ (net : Net) where
  push_keeps :
      (j : String) (o : Option TlsCert) (m : TlsManager) (w : net.World)
      → (push net j o m w).0.secret_to_ingress ≡ m.secret_to_ingress
  unfolding push
  push_keeps j none m w = refl
  push_keeps j (some cert) m w = pushed_keeps (push_cert_to_caddy net cert w).0
    where
      pushed_keeps :
          (o : Option String) → (pushed net o j cert m).secret_to_ingress ≡ m.secret_to_ingress
      pushed_keeps none = refl
      pushed_keeps (some e) = refl

  module _ (cluster : Cluster) where
    reference-load_entry :
        (ing : Ingress) (tls : IngressTls) (m : TlsManager) (w : net.World) (k l : String)
        → reference (load_entry net cluster ing tls m w).0 k l ≡ (
            if (not (is_blank tls.secret_name) && object_key ing.namespace tls.secret_name == k)
              && object_key ing.namespace ing.name == l
            then some true
            else reference m k l)
    unfolding load_entry
    reference-load_entry ing tls m w k l =
        let j = object_key ing.namespace tls.secret_name in
        let i = object_key ing.namespace ing.name in
        elim (Bool-cases (is_blank tls.secret_name)) [
          | inl e ↦ rw e refl
          | inr e ↦
              rw
                (
                  e,
                  push_keeps j (entry_cert ing tls (cluster.secret ing.namespace tls.secret_name))
                      (track j i m) w,
                )
                (reference-track j i m k l)
        ]

    reference-load_entries :
        (ing : Ingress) (entries : List IngressTls) (m : TlsManager) (w : net.World) (k l : String)
        → reference (load_entries net cluster ing entries m w).0 k l ≡ (
            if names_secret ing k entries && object_key ing.namespace ing.name == l
            then some true
            else reference m k l)
    unfolding load_entries
    reference-load_entries ing [] m w k l = refl
    reference-load_entries ing (tls ∷ rest) m w k l =
        let (m', w') = load_entry net cluster ing tls m w in
        ground
          (arith, reference-load_entries ing rest m' w' k l, reference-load_entry ing tls m w k l)

    -- After the certificates of an Ingress are loaded, it references each secret that it names, whether
    -- the secret could be read or not, and every other reference is as it was.
    pub reference-load_from_ingress :
        (ing : Ingress) (m : TlsManager) (w : net.World) (k l : String)
        → reference (load_from_ingress net cluster ing m w).0 k l ≡ (
            if names_secret ing k ing.tls && object_key ing.namespace ing.name == l
            then some true
            else reference m k l)
    unfolding load_from_ingress
    reference-load_from_ingress ing m w k l = reference-load_entries ing ing.tls m w k l
