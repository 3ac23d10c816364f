-- ===== src/Tls/Threads/Calls.antt =====
-- The calls of tls.go, and a property of the state that the parts of them under the mutex keep.
use caddy_k8s.Base.{
  String, ◌≡◌, refl, Bool, true, Option, none, some, List, [], ◌∷◌, AllSome, Bool-cases, inl, inr,
}
use caddy_k8s.Dict.{lookup, insert}
use caddy_k8s.Kube.{Ingress, IngressTls, Secret}
use caddy_k8s.Strings.{is_blank}
use caddy_k8s.Tls.Certs.{TlsCert, TlsManager, object_key, track, entry_cert, release}
use caddy_k8s.Tls.Tracked.{IsCertOf, cert_of-IsCertOf, entry_cert-IsCertOf}
use caddy_k8s.Tls.Threads.{
  Task, finished, keep, push_then, load_then, load_task, remove_task, reload_with, reload_task,
  when_managed, update_task, Call, load, remove, update, task_of, Runs,
}
use caddy_k8s.Tls.Threads.Kept.{Keeps, over, changing, asking, pushing, Runs-keeps}

-- A property of the state, what may happen between two parts of a call, and when a certificate may be put
-- under a key; and that each part under the mutex keeps them.
pub record Invariant : Type 1 where
  pub Good : TlsManager → Type 0
  pub After : TlsManager → TlsManager → Type 0
  pub Ready : TlsManager → String → Type 0
  pub after_refl : (m : TlsManager) → After m m
  pub after_trans : (a b c : TlsManager) → After a b → After b c → After a c
  pub ready_after : (m n : TlsManager) (k : String) → After m n → Ready m k → Ready n k
  pub ready_managed :
      (m : TlsManager) (k : String) (c : TlsCert)
      → Good m
      → lookup k m.managed_certs ≡ some c
      → Ready m k
  pub track_good : (m : TlsManager) (j i : String) → Good m → Good (track j i m)
  pub track_after : (m : TlsManager) (j i : String) → After m (track j i m)
  pub track_ready : (m : TlsManager) (j i : String) → Ready (track j i m) j
  pub insert_good :
      (m : TlsManager) (j : String) (cert : TlsCert)
      → Good m
      → Ready m j
      → IsCertOf j cert
      → Good (record m { managed_certs = insert j cert m.managed_certs })
  pub insert_after :
      (m : TlsManager) (j : String) (cert : TlsCert)
      → After m (record m { managed_certs = insert j cert m.managed_certs })

module _ (inv : Invariant) where
  open inv use {Good, After, Ready, after_refl}

  abbrev Safe : TlsManager → Task → Type 0
  Safe = Keeps Good After after_refl inv.after_trans

  keep-Safe :
      (m : TlsManager) (e : Option String) (j : String) (cert : TlsCert) (next : Task)
      → Ready m j
      → IsCertOf j cert
      → ((n : TlsManager) → Safe n next)
      → Safe m (keep e j cert next)
  keep-Safe m none j cert next ready ok h =
      changing m _ _ (λ n r p. inv.insert_good n j cert p (inv.ready_after m n j r ready) ok)
        (λ n r p. inv.insert_after n j cert) (λ n r p. h _)
  keep-Safe m (some e) j cert next ready ok h = h m

  push_then-Safe :
      (m : TlsManager) (o : Option TlsCert) (j : String) (next : Task)
      → Ready m j
      → AllSome (IsCertOf j) o
      → ((n : TlsManager) → Safe n next)
      → Safe m (push_then o j next)
  push_then-Safe m none j next ready ok h = h m
  push_then-Safe m (some cert) j next ready ok h =
      pushing m cert _ (λ e. keep-Safe m e j cert next ready ok h)

  load_task-Safe :
      (ing : Ingress) (entries : List IngressTls) (m : TlsManager) → Safe m (load_task ing entries)
  unfolding load_task load_then
  load_task-Safe ing [] m = over m
  load_task-Safe ing (tls ∷ rest) m = elim (Bool-cases (is_blank tls.secret_name)) [
    | inl e ↦ rw e (load_task-Safe ing rest m)
    | inr e ↦
        let j = object_key ing.namespace tls.secret_name in
        let i = object_key ing.namespace ing.name in
        rw e (
          changing m _ _ (λ n r p. inv.track_good n j i p) (λ n r p. inv.track_after n j i)
            (λ n r p. asking _ _ _ _ (λ o.
              push_then-Safe _ (entry_cert ing tls o) j _ (inv.track_ready n j i)
                (entry_cert-IsCertOf ing tls o) (λ n'. load_task-Safe ing rest n'))))
  ]

  reload_with-Safe :
      (m : TlsManager) (o : Option TlsCert) (secret : Secret)
      → AllSome (λ c. Ready m (object_key secret.namespace secret.name)) o
      → Safe m (reload_with o secret)
  reload_with-Safe m none secret ready = over m
  reload_with-Safe m (some existing) secret ready =
      push_then-Safe m _ _ finished ready
        (cert_of-IsCertOf secret.namespace secret.name existing.hosts secret) (λ n. over n)

  ready-AllSome :
      (m : TlsManager) (k : String)
      → Good m
      → (o : Option TlsCert) → lookup k m.managed_certs ≡ o
      → AllSome (λ c. Ready m k) o
  ready-AllSome m k p none e = tt
  ready-AllSome m k p (some c) e = inv.ready_managed m k c p e

  when_managed-Safe :
      (m : TlsManager) (o : Option TlsCert) (next : Task)
      → Safe m next
      → Safe m (when_managed o next)
  when_managed-Safe m none next h = over m
  when_managed-Safe m (some cert) next h = h

  update_task-Safe : (m : TlsManager) (secret : Secret) → Safe m (update_task secret)
  unfolding update_task reload_task
  update_task-Safe m secret =
      changing m _ _ (λ n r p. p) (λ n r p. after_refl n)
        (λ n r p. when_managed-Safe n _ _ (
          changing n _ _ (λ n' r p. p) (λ n' r p. after_refl n')
            (λ n' r p. reload_with-Safe n' _ secret (ready-AllSome n' _ p _ refl))))

  module _ (release_good : (m : TlsManager) (j i : String) → Good m → Good (release j i m))
      (release_after : (m : TlsManager) (j i : String) → After m (release j i m)) where
    pub remove_task-Safe :
        (ing : Ingress) (entries : List IngressTls) (m : TlsManager)
        → Safe m (remove_task ing entries)
    unfolding remove_task
    remove_task-Safe ing [] m = over m
    remove_task-Safe ing (tls ∷ rest) m = elim (Bool-cases (is_blank tls.secret_name)) [
      | inl e ↦ rw e (remove_task-Safe ing rest m)
      | inr e ↦ rw e (
          changing m _ _ (λ n r p. release_good n _ _ p) (λ n r p. release_after n _ _)
            (λ n r p. remove_task-Safe ing rest _))
    ]

  begun :
      (allowed : Call → Bool)
      → ((ing : Ingress) (m : TlsManager)
          → allowed (remove ing) ≡ true
          → Safe m (remove_task ing ing.tls))
      → (call : Call) (m : TlsManager) → allowed call ≡ true
      → Safe m (task_of call)
  begun allowed removal (load ing) m e = load_task-Safe ing ing.tls m
  begun allowed removal (remove ing) m e = removal ing m e
  begun allowed removal (update secret) m e = update_task-Safe m secret

  -- In every order of calls of the kinds that keep it, the property holds at the end.
  pub Runs-Good :
      (allowed : Call → Bool)
      → ((ing : Ingress) (m : TlsManager)
          → allowed (remove ing) ≡ true
          → Safe m (remove_task ing ing.tls))
      → {us : List Task} {m v : TlsManager} → Runs allowed [] m us v
      → Good m
      → Good v
  Runs-Good allowed removal runs p =
      Runs-keeps Good After after_refl inv.after_trans allowed (begun allowed removal) runs p tt
