-- ===== src/Tls/Threads/Managed.antt =====
-- The invariants of the certificate manager of tls.go in every order of the calls.
use caddy_k8s.Base.{String, Bool, true, false, List, []}
use caddy_k8s.Tls.Certs.{TlsManager}
use caddy_k8s.Tls.Tracked.{
  IsTracked, AreCerts, IsManaged, track-IsTracked, track-IsManaged, track-stays, track-AreCerts,
  insert-AreCerts, insert-IsManaged, release-AreCerts,
}
use caddy_k8s.Tls.Threads.{Task, Call, load, remove, update, Runs}
use caddy_k8s.Tls.Threads.Calls.{Invariant, remove_task-Safe, Runs-Good}

abbrev pub any_call : Call → Bool
any_call call = true

-- The calls but the removals.
abbrev pub is_no_removal : Call → Bool
is_no_removal (load ing) = true
is_no_removal (update secret) = true
is_no_removal (remove ing) = false

-- Well-formed certificates, whatever the others do.
abbrev certs_invariant : Invariant
certs_invariant = record {
  Good = AreCerts;
  After = λ m n. Unit;
  Ready = λ m k. Unit;
  after_refl = λ m. tt;
  after_trans = λ a b c r s. tt;
  ready_after = λ m n k r s. tt;
  ready_managed = λ m k c p e. tt;
  track_good = track-AreCerts;
  track_after = λ m j i. tt;
  track_ready = λ m j i. tt;
  insert_good = λ m j cert p ready ok. insert-AreCerts m j cert p ok;
  insert_after = λ m j cert. tt;
}

-- References to the certificates, while the others leave the references.
abbrev managed_invariant : Invariant
managed_invariant = record {
  Good = IsManaged;
  After = λ m n. (k : String) → IsTracked m k → IsTracked n k;
  Ready = IsTracked;
  after_refl = λ m k t. t;
  after_trans = λ a b c r s k t. s k (r k t);
  ready_after = λ m n k r t. r k t;
  ready_managed = λ m k c p e. p.tracked k c e;
  track_good = track-IsManaged;
  track_after = track-stays;
  track_ready = track-IsTracked;
  insert_good = insert-IsManaged;
  insert_after = λ m j cert k t. record { refs = t.refs; held = t.held; some_ref = t.some_ref };
}

-- In every order of the parts of the calls, whatever the cluster and Caddy answer, the managed certificates
-- keep both parts and stand under their secrets' keys; and if no call removes an Ingress, each of them
-- stays referenced by an Ingress.
pub Runs-IsManaged :
    {us vs : List Task} {m v n u : TlsManager}
    → Runs any_call [] m us v
    → AreCerts m
    → Runs is_no_removal [] n vs u
    → IsManaged n
    → AreCerts v × IsManaged u
Runs-IsManaged runs certs calm managed = (
  Runs-Good certs_invariant any_call
      (λ ing m e.
        remove_task-Safe certs_invariant (λ m j i p. release-AreCerts j i m p) (λ m j i. tt) ing
          ing.tls m)
      runs certs,
  Runs-Good managed_invariant is_no_removal (λ ing m e. cc) calm managed,
)
