-- ===== src/Tls/Threads.antt =====
-- `TLSManager` used by several goroutines: the handlers of Ingress events, and that of the secret watcher
-- (tls.go). The mutex makes a part of a call that holds it one step; between such parts a call reads a
-- Secret or pushes a certificate to Caddy, while other calls go on.
pub mod Kept
pub mod Calls
pub mod Managed
pub mod Agrees
use caddy_k8s.Base.{
  String, Bool, true, false, Option, none, some, List, [], ◌∷◌, if◌then◌else◌, ◌≡◌,
}
use caddy_k8s.Dict.{lookup, insert}
use caddy_k8s.Kube.{Ingress, IngressTls, Secret}
use caddy_k8s.Strings.{is_blank}
use caddy_k8s.Tls.Certs.{TlsCert, TlsManager, object_key, track, cert_of, entry_cert, release}

-- What is left of a call: a part under the mutex with what follows from the state before it, the read of
-- a Secret, or the push of a certificate.
pub data Task : Type 0 where
  finished : Task
  locked : (TlsManager → TlsManager) → (TlsManager → Task) → Task
  reads : String → String → (Option Secret → Task) → Task
  pushes : TlsCert → (Option String → Task) → Task

abbrev pub keep : Option String → String → TlsCert → Task → Task
keep none secret_key cert next =
    locked (λ m. record m { managed_certs = insert secret_key cert m.managed_certs }) (λ m. next)
keep (some e) secret_key cert next = next

abbrev pub push_then : Option TlsCert → String → Task → Task
push_then none secret_key next = next
push_then (some cert) secret_key next = pushes cert (λ e. keep e secret_key cert next)

-- One entry of `LoadFromIngress`.
unfoldable pub load_then : Ingress → IngressTls → Task → Task
load_then ing tls next =
    let secret_key = object_key ing.namespace tls.secret_name in
    locked (track secret_key (object_key ing.namespace ing.name)) (λ m.
      reads ing.namespace tls.secret_name (λ o. push_then (entry_cert ing tls o) secret_key next))

unfoldable pub load_task : Ingress → List IngressTls → Task
load_task ing [] = finished
load_task ing (tls ∷ rest) =
    let next = load_task ing rest in
    if is_blank tls.secret_name then next else load_then ing tls next

unfoldable pub remove_task : Ingress → List IngressTls → Task
remove_task ing [] = finished
remove_task ing (tls ∷ rest) =
    let next = remove_task ing rest in
    if is_blank tls.secret_name
    then next
    else locked
        (release (object_key ing.namespace tls.secret_name) (object_key ing.namespace ing.name))
        (λ m. next)

abbrev pub reload_with : Option TlsCert → Secret → Task
reload_with none secret = finished
reload_with (some existing) secret =
    push_then (cert_of secret.namespace secret.name existing.hosts secret)
      (object_key secret.namespace secret.name) finished

-- `reloadSecret`
unfoldable pub reload_task : Secret → Task
reload_task secret =
    locked (λ m. m)
      (λ m. reload_with (lookup (object_key secret.namespace secret.name) m.managed_certs) secret)

abbrev pub when_managed : Option TlsCert → Task → Task
when_managed none next = finished
when_managed (some cert) next = next

-- The handler of the watcher, which looks whether the secret is managed.
unfoldable pub update_task : Secret → Task
update_task secret =
    locked (λ m. m)
      (λ m.
        when_managed (lookup (object_key secret.namespace secret.name) m.managed_certs)
          (reload_task secret))

-- The calls: an Ingress is handled, an Ingress is removed, a secret is updated.
pub data Call : Type 0 where
  load : Ingress → Call
  remove : Ingress → Call
  update : Secret → Call

abbrev pub task_of : Call → Task
task_of (load ing) = load_task ing ing.tls
task_of (remove ing) = remove_task ing ing.tls
task_of (update secret) = update_task secret

-- One of the calls goes on, with any answer.
pub data Turn : List Task → TlsManager → List Task → TlsManager → Type 0 where
  holds :
      (change : TlsManager → TlsManager) (next : TlsManager → Task) (ts : List Task)
      (m : TlsManager)
      → Turn (locked change next ∷ ts) m (next m ∷ ts) (change m)
  answers :
      (namespace name : String) (next : Option Secret → Task) (ts : List Task) (m : TlsManager)
      (o : Option Secret)
      → Turn (reads namespace name next ∷ ts) m (next o ∷ ts) m
  replies :
      (cert : TlsCert) (next : Option String → Task) (ts : List Task) (m : TlsManager)
      (e : Option String)
      → Turn (pushes cert next ∷ ts) m (next e ∷ ts) m
  another :
      (t : Task) {ts ts' : List Task} {m m' : TlsManager}
      → Turn ts m ts' m'
      → Turn (t ∷ ts) m (t ∷ ts') m'

-- The calls in any order, in which new calls of the allowed kinds begin at any time.
pub data Runs (allowed : Call → Bool)
    : List Task → TlsManager → List Task → TlsManager → Type 0 where
  stays : (ts : List Task) (m : TlsManager) → Runs allowed ts m ts m
  goes :
      {ts ts' us : List Task} {m m' v : TlsManager}
      → Turn ts m ts' m'
      → Runs allowed ts' m' us v
      → Runs allowed ts m us v
  begins :
      (call : Call) {ts us : List Task} {m v : TlsManager}
      → allowed call ≡ true
      → Runs allowed (task_of call ∷ ts) m us v
      → Runs allowed ts m us v
