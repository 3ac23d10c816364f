-- ===== src/Tls/Managed.antt =====
-- The invariant of the certificate manager, and its operations (tls.go).
use caddy_k8s.Base.{
  String, Option, none, some, List, [], ◌∷◌, Bool-cases, Option-cases, inl, inr, AllSome,
}
use caddy_k8s.Dict.{lookup}
use caddy_k8s.Kube.{Ingress, IngressTls, Secret, Cluster}
use caddy_k8s.Strings.{is_blank}
use caddy_k8s.Admin.Client.{Net}
use caddy_k8s.Tls.Certs.{
  TlsCert, TlsManager, object_key, track, release_entries, remove_from_ingress, pushed, push,
  reload_secret, load_entry, load_entries, load_from_ingress,
}
use caddy_k8s.Tls.Tracked.{
  IsTracked, IsCertOf, IsManaged, track-IsTracked, track-IsManaged, cert_of-IsCertOf,
  entry_cert-IsCertOf, insert-IsManaged, release-IsManaged,
}

pub release_entries-IsManaged :
    (ing : Ingress) (entries : List IngressTls) (m : TlsManager)
    → IsManaged m
    → IsManaged (release_entries ing entries m)
unfolding release_entries
release_entries-IsManaged ing [] m h = h
release_entries-IsManaged ing (tls ∷ rest) m h = elim (Bool-cases (is_blank tls.secret_name)) [
  | inl e ↦ rw e (release_entries-IsManaged ing rest m h)
  | inr e ↦ rw e (release_entries-IsManaged ing rest _ (release-IsManaged _ _ m h))
]

module _ (net : Net) where
  pushed-IsManaged :
      (o : Option String) (j : String) (cert : TlsCert) (m : TlsManager)
      → IsManaged m
      → IsTracked m j
      → IsCertOf j cert
      → IsManaged (pushed net o j cert m)
  pushed-IsManaged none j cert m h t ok = insert-IsManaged m j cert h t ok
  pushed-IsManaged (some e) j cert m h t ok = h

  push-IsManaged :
      (j : String) (o : Option TlsCert) (m : TlsManager) (w : net.World)
      → IsManaged m
      → IsTracked m j
      → AllSome (IsCertOf j) o
      → IsManaged (push net j o m w).0
  unfolding push
  push-IsManaged j none m w h t ok = h
  push-IsManaged j (some cert) m w h t ok = pushed-IsManaged _ j cert m h t ok

  pub reload_secret-IsManaged :
      (secret : Secret) (m : TlsManager) (w : net.World)
      → IsManaged m
      → IsManaged (reload_secret net secret m w).0
  unfolding reload_secret
  reload_secret-IsManaged secret m w h =
      let j = object_key secret.namespace secret.name in
      elim (Option-cases (lookup j m.managed_certs)) [
        | inl e ↦ rw (reload_secret, e) h
        | inr (c, e) ↦
            rw (reload_secret, e)
              (push-IsManaged j _ m w h (h.tracked j c e)
                (cert_of-IsCertOf secret.namespace secret.name c.hosts secret))
      ]

  module _ (cluster : Cluster) where
    load_entry-IsManaged :
        (ing : Ingress) (tls : IngressTls) (m : TlsManager) (w : net.World)
        → IsManaged m
        → IsManaged (load_entry net cluster ing tls m w).0
    unfolding load_entry
    load_entry-IsManaged ing tls m w h = elim (Bool-cases (is_blank tls.secret_name)) [
      | inl e ↦ rw e h
      | inr e ↦
          let j = object_key ing.namespace tls.secret_name in
          let i = object_key ing.namespace ing.name in
          rw e (
            push-IsManaged j _ (track j i m) w (track-IsManaged m j i h) (track-IsTracked m j i)
              (entry_cert-IsCertOf ing tls (cluster.secret ing.namespace tls.secret_name)))
    ]

    pub load_entries-IsManaged :
        (ing : Ingress) (entries : List IngressTls) (m : TlsManager) (w : net.World)
        → IsManaged m
        → IsManaged (load_entries net cluster ing entries m w).0
    unfolding load_entries
    load_entries-IsManaged ing [] m w h = h
    load_entries-IsManaged ing (tls ∷ rest) m w h =
        let (m', w') = load_entry net cluster ing tls m w in
        load_entries-IsManaged ing rest m' w' (load_entry-IsManaged ing tls m w h)

    -- Loading the certificates of an Ingress, removing it and reloading a secret keep the invariant,
    -- whatever the cluster and Caddy answer.
    pub load_from_ingress-IsManaged :
        (ing : Ingress) (secret : Secret) (m : TlsManager) (w : net.World)
        → IsManaged m
        → IsManaged (load_from_ingress net cluster ing m w).0
          × IsManaged (remove_from_ingress ing m)
          × IsManaged (reload_secret net secret m w).0
    unfolding load_from_ingress remove_from_ingress
    load_from_ingress-IsManaged ing secret m w h = (
      load_entries-IsManaged ing ing.tls m w h,
      release_entries-IsManaged ing ing.tls m h,
      reload_secret-IsManaged secret m w h,
    )
