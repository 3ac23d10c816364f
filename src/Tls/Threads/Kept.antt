-- ===== src/Tls/Threads/Kept.antt =====
-- Tasks of tls.go, and a property of the state that others may change in the meantime.
use caddy_k8s.Base.{String, ◌≡◌, Bool, true, Option, List, [], ◌∷◌, All}
use caddy_k8s.Kube.{Secret}
use caddy_k8s.Tls.Certs.{TlsCert, TlsManager}
use caddy_k8s.Tls.Threads.{
  Task, finished, locked, reads, pushes, Call, task_of, Turn, holds, answers, replies, another,
  Runs, stays, goes, begins,
}

module _ (P : TlsManager → Type 0) (After : TlsManager → TlsManager → Type 0)
    (after_refl : (m : TlsManager) → After m m)
    (after_trans : (a b c : TlsManager) → After a b → After b c → After a c) where
  -- From a state on, whatever the others make of it in the meantime, a task keeps the property.
  pub data Keeps : TlsManager → Task → Type 0 where
    over : (m : TlsManager) → Keeps m finished
    changing :
        (m : TlsManager) (change : TlsManager → TlsManager) (next : TlsManager → Task)
        → ((n : TlsManager) → After m n → P n → P (change n))
        → ((n : TlsManager) → After m n → P n → After n (change n))
        → ((n : TlsManager) → After m n → P n → Keeps (change n) (next n))
        → Keeps m (locked change next)
    asking :
        (m : TlsManager) (namespace name : String) (next : Option Secret → Task)
        → ((o : Option Secret) → Keeps m (next o))
        → Keeps m (reads namespace name next)
    pushing :
        (m : TlsManager) (cert : TlsCert) (next : Option String → Task)
        → ((e : Option String) → Keeps m (next e))
        → Keeps m (pushes cert next)

  Keeps-After : (m n : TlsManager) {t : Task} → After m n → Keeps m t → Keeps n t
  Keeps-After m n r (over a) = over n
  Keeps-After m n r (changing a change next holds' moves next') =
      changing n change next (λ b s. holds' b (after_trans m n b r s))
        (λ b s. moves b (after_trans m n b r s)) (λ b s. next' b (after_trans m n b r s))
  Keeps-After m n r (asking a namespace name next h) =
      asking n namespace name next (λ o. Keeps-After m n r (h o))
  Keeps-After m n r (pushing a cert next h) = pushing n cert next (λ e. Keeps-After m n r (h e))

  All-Keeps-After :
      (m n : TlsManager) (ts : List Task) → After m n → All (Keeps m) ts → All (Keeps n) ts
  All-Keeps-After m n [] r h = tt
  All-Keeps-After m n (t ∷ ts) r (h, hs) = (Keeps-After m n r h, All-Keeps-After m n ts r hs)

  -- What holds after a turn.
  record IsKept (m : TlsManager) (ts : List Task) (n : TlsManager) : Type 0 where
    still : P n
    after : After m n
    rest : All (Keeps n) ts

  Turn-IsKept :
      {ts ts' : List Task} {m m' : TlsManager}
      → Turn ts m ts' m'
      → P m
      → All (Keeps m) ts
      → IsKept m ts' m'
  Turn-IsKept (holds change next ts m) p (changing a change' next' ok moves h, hs) = record {
    still = ok m (after_refl m) p;
    after = moves m (after_refl m) p;
    rest = (h m (after_refl m) p, All-Keeps-After m _ ts (moves m (after_refl m) p) hs);
  }
  Turn-IsKept (answers namespace name next ts m o) p (asking a namespace' name' next' h, hs) =
      record { still = p; after = after_refl m; rest = (h o, hs) }
  Turn-IsKept (replies cert next ts m e) p (pushing a cert' next' h, hs) = record {
    still = p;
    after = after_refl m;
    rest = (h e, hs);
  }
  Turn-IsKept (another t {ts} {ts'} {m} {m'} go) p (h, hs) =
      let kept = Turn-IsKept go p hs in
      record {
        still = kept.still;
        after = kept.after;
        rest = (Keeps-After m m' kept.after h, kept.rest);
      }

  pub Runs-keeps :
      (allowed : Call → Bool)
      → ((call : Call) (m : TlsManager) → allowed call ≡ true → Keeps m (task_of call))
      → {ts us : List Task} {m v : TlsManager} → Runs allowed ts m us v
      → P m
      → All (Keeps m) ts
      → P v
  Runs-keeps allowed safe (stays ts m) p hs = p
  Runs-keeps allowed safe (goes go more) p hs =
      let kept = Turn-IsKept go p hs in Runs-keeps allowed safe more kept.still kept.rest
  Runs-keeps allowed safe (begins call {ts} {us} {m} ok more) p hs =
      Runs-keeps allowed safe more p (safe call m ok, hs)
