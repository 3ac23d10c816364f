-- ===== src/Tls/Threads/Agrees.antt =====
-- A call of tls.go that is not interrupted, beside the operation that is run whole.
use caddy_k8s.Base.{
  String, ◌≡◌, refl, sym, ap, ◌∙◌, Option, none, some, List, [], ◌∷◌, Bool-cases, inl, inr,
}
use caddy_k8s.Dict.{lookup}
use caddy_k8s.Kube.{Ingress, IngressTls, Secret, Cluster}
use caddy_k8s.Strings.{is_blank}
use caddy_k8s.Admin.Client.{Net}
use caddy_k8s.Tls.Certs.{
  TlsCert, TlsManager, object_key, track, cert_of, entry_cert, push_cert_to_caddy, pushed, push,
  reload_secret, load_entry, load_entries, load_from_ingress, release_entries, remove_from_ingress,
}
use caddy_k8s.Tls.Threads.{
  Task, finished, locked, reads, pushes, keep, push_then, load_then, load_task, remove_task,
  reload_with, reload_task, when_managed, update_task, task_of, load, remove, update,
}

module _ (net : Net) (cluster : Cluster) where
  open net use {World}

  unfoldable alone : Task → TlsManager → World → TlsManager × World
  alone finished m w = (m, w)
  alone (locked change next) m w = alone (next m) (change m) w
  alone (reads namespace name next) m w = alone (next (cluster.secret namespace name)) m w
  alone (pushes cert next) m w = let (e, w') = push_cert_to_caddy net cert w in alone (next e) m w'

  alone-keep :
      (e : Option String) (k : String) (cert : TlsCert) (next : Task) (m : TlsManager) (w : World)
      → alone (keep e k cert next) m w ≡ alone next (pushed net e k cert m) w
  unfolding alone
  alone-keep none k cert next m w = refl
  alone-keep (some e) k cert next m w = refl

  alone-push_then :
      (o : Option TlsCert) (k : String) (next : Task) (m : TlsManager) (w : World)
      → alone (push_then o k next) m w ≡ (let (m', w') = push net k o m w in alone next m' w')
  unfolding alone push
  alone-push_then none k next m w = refl
  alone-push_then (some cert) k next m w =
      let (e, w') = push_cert_to_caddy net cert w in alone-keep e k cert next m w'

  alone-load_task :
      (ing : Ingress) (entries : List IngressTls) (m : TlsManager) (w : World)
      → alone (load_task ing entries) m w ≡ load_entries net cluster ing entries m w
  unfolding alone load_task load_then load_entries load_entry
  alone-load_task ing [] m w = refl
  alone-load_task ing (tls ∷ rest) m w = elim (Bool-cases (is_blank tls.secret_name)) [
    | inl e ↦ rw e (alone-load_task ing rest m w)
    | inr e ↦
        let k = object_key ing.namespace tls.secret_name in
        let o = entry_cert ing tls (cluster.secret ing.namespace tls.secret_name) in
        let tracked = track k (object_key ing.namespace ing.name) m in
        let (m', w') = push net k o tracked w in
        rw e (alone-push_then o k (load_task ing rest) tracked w ∙ alone-load_task ing rest m' w')
  ]

  alone-remove_task :
      (ing : Ingress) (entries : List IngressTls) (m : TlsManager) (w : World)
      → alone (remove_task ing entries) m w ≡ (release_entries ing entries m, w)
  unfolding alone remove_task release_entries
  alone-remove_task ing [] m w = refl
  alone-remove_task ing (tls ∷ rest) m w = elim (Bool-cases (is_blank tls.secret_name)) [
    | inl e ↦ rw e (alone-remove_task ing rest m w)
    | inr e ↦ rw e (alone-remove_task ing rest _ w)
  ]

  -- The handler of the watcher, once it has looked.
  unfoldable reloaded : Option TlsCert → Secret → TlsManager → World → TlsManager × World
  reloaded none secret m w = (m, w)
  reloaded (some existing) secret m w =
      push net (object_key secret.namespace secret.name)
        (cert_of secret.namespace secret.name existing.hosts secret) m w

  alone-when_managed :
      (o : Option TlsCert) (secret : Secret) (m : TlsManager) (w : World)
      → lookup (object_key secret.namespace secret.name) m.managed_certs ≡ o
      → alone (when_managed o (reload_task secret)) m w ≡ reloaded o secret m w
  unfolding alone reload_task reloaded
  alone-when_managed none secret m w e = refl
  alone-when_managed (some c) secret m w e =
      ap (λ o. alone (reload_with o secret) m w) e ∙ alone-push_then _ _ finished m w

  reload_secret-reloaded :
      (o : Option TlsCert) (secret : Secret) (m : TlsManager) (w : World)
      → lookup (object_key secret.namespace secret.name) m.managed_certs ≡ o
      → reload_secret net secret m w ≡ reloaded o secret m w
  unfolding reload_secret reloaded
  reload_secret-reloaded none secret m w e = rw (reload_secret, e) refl
  reload_secret-reloaded (some c) secret m w e = rw (reload_secret, e) refl

  alone-update_task :
      (secret : Secret) (m : TlsManager) (w : World)
      → alone (update_task secret) m w ≡ reload_secret net secret m w
  unfolding alone update_task
  alone-update_task secret m w =
      alone-when_managed _ secret m w refl ∙ sym (reload_secret-reloaded _ secret m w refl)

  -- A call whose parts are not interrupted leaves the state and the world as the operation does.
  alone-calls :
      (ing : Ingress) (secret : Secret) (m : TlsManager) (w : World)
      → (alone (task_of (load ing)) m w ≡ load_from_ingress net cluster ing m w)
        × (alone (task_of (remove ing)) m w ≡ (remove_from_ingress ing m, w))
        × (alone (task_of (update secret)) m w ≡ reload_secret net secret m w)
  unfolding load_from_ingress remove_from_ingress
  alone-calls ing secret m w = (
    alone-load_task ing ing.tls m w,
    alone-remove_task ing ing.tls m w,
    alone-update_task secret m w,
  )
