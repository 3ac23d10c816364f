-- ===== src/App/Lifecycle/Stopped.antt =====
-- What `Stop` of app.go stops.
use caddy_k8s.Base.{
  ◌≡◌, ◌≢◌, refl, sym, ap, ◌∙◌, Bool, true, false, not, ◌&&◌, none, some, ◌⊎◌, inl, inr, arith,
  Bool-cases,
}
use caddy_k8s.Admin.Client.{found}
use caddy_k8s.Signal.{Signal, absent, live, closed, is_absent}
use caddy_k8s.App.Lifecycle.{
  Stage, not_started, finding_https, finding_http, restoring, starting_managers, logging, informing,
  returned, Lifecycle, provisioned, start, stop, Passes, waits, gives_up, https_found, http_looked,
  restored, watching, logged, ends, Passed, here, further, informs, watches,
}

-- The stages before the certificate manager is made.
abbrev early : Stage → Bool
early not_started = true
early finding_https = true
early finding_http = true
early restoring = true
early starting_managers = true
early logging = false
early informing = false
early returned = false

-- Before the stop.
record IsRunning (l : Lifecycle) : Type 0 where
  context : l.context ≡ live
  stop_ch : l.stop_ch ≡ live
  manager : (l.manager ≡ absent) ⊎ (l.manager ≡ live)
  unmade : early l.stage ≡ true → l.manager ≡ absent

-- After the stop of an application that had the manager of the given state.
record IsStopped (before : Signal) (l : Lifecycle) : Type 0 where
  context : l.context ≡ closed
  stop_ch : l.stop_ch ≡ closed
  store : l.store_open ≡ false
  manager :
      ((is_absent before ≡ true) × ((l.manager ≡ absent) ⊎ (l.manager ≡ live)))
      ⊎ ((is_absent before ≡ false) × (l.manager ≡ closed) × (early l.stage ≡ false))

absent-live : absent ≢ live
absent-live e = cc

Passes-IsRunning : {a b : Lifecycle} → Passes a b → IsRunning a → IsRunning b
Passes-IsRunning (waits l e) h = h
Passes-IsRunning (gives_up l e closes) h = record {
  context = h.context;
  stop_ch = h.stop_ch;
  manager = h.manager;
  unmade = λ x. cc;
}
Passes-IsRunning (https_found l e) h = record {
  context = h.context;
  stop_ch = h.stop_ch;
  manager = h.manager;
  unmade = λ x. h.unmade (ap early e);
}
Passes-IsRunning (http_looked l e) h = record {
  context = h.context;
  stop_ch = h.stop_ch;
  manager = h.manager;
  unmade = λ x. h.unmade (ap early e);
}
Passes-IsRunning (restored l e) h = record {
  context = h.context;
  stop_ch = h.stop_ch;
  manager = h.manager;
  unmade = λ x. h.unmade (ap early e);
}
Passes-IsRunning (watching l e) h = record {
  context = h.context;
  stop_ch = h.stop_ch;
  manager = inr refl;
  unmade = λ x. cc;
}
Passes-IsRunning (logged l e) h = record {
  context = h.context;
  stop_ch = h.stop_ch;
  manager = h.manager;
  unmade = λ x. cc;
}
Passes-IsRunning (ends l e) h = record {
  context = h.context;
  stop_ch = h.stop_ch;
  manager = h.manager;
  unmade = λ x. cc;
}

Passed-IsRunning : {a b : Lifecycle} → Passed a b → IsRunning a → IsRunning b
Passed-IsRunning (here l) h = h
Passed-IsRunning (further go more) h = Passed-IsRunning more (Passes-IsRunning go h)

made_before : (a : Lifecycle) → IsRunning a → a.manager ≡ live → early a.stage ≡ false
made_before a h e = elim (Bool-cases (early a.stage)) [
  | inl x ↦ absurd (absent-live (sym (h.unmade x) ∙ e))
  | inr x ↦ x
]

stop-IsStopped :
    (a : Lifecycle) → IsRunning a → (b : Lifecycle) × (stop a ≡ some b) × IsStopped a.manager b
unfolding stop
stop-IsStopped a h = elim h.manager [
  | inl e ↦ (
    record a { context = closed; stop_ch = closed; manager = absent; store_open = false },
    rw (stop, h.stop_ch, e, h.context) refl,
    record {
      context = refl;
      stop_ch = refl;
      store = refl;
      manager = inl (ap is_absent e, inl refl);
    },
  )
  | inr e ↦ (
    record a { context = closed; stop_ch = closed; manager = closed; store_open = false },
    rw (stop, h.stop_ch, e, h.context) refl,
    record {
      context = refl;
      stop_ch = refl;
      store = refl;
      manager = inr (ap is_absent e, refl, made_before a h e);
    },
  )
]

-- Another stage with the same signals.
at_stage :
    (before : Signal) (l : Lifecycle) (s : Stage) (started : Bool)
    → IsStopped before l
    → (early l.stage ≡ false → early s ≡ false)
    → IsStopped before (record l { stage = s; informer_started = started })
at_stage before l s started h late = record {
  context = h.context;
  stop_ch = h.stop_ch;
  store = h.store;
  manager = elim h.manager [ inl p ↦ inl p | inr (b, m, x) ↦ inr (b, m, late x) ];
}

-- A stage that passes after the stop.
Passes-IsStopped :
    (before : Signal) {a b : Lifecycle} → Passes a b → IsStopped before a → IsStopped before b
Passes-IsStopped before (waits l e) h = h
Passes-IsStopped before (gives_up l e closes) h =
    at_stage before l returned l.informer_started h (λ x. refl)
Passes-IsStopped before (https_found l e) h =
    at_stage before l finding_http l.informer_started h (λ x. cc)
Passes-IsStopped before (http_looked l e) h =
    at_stage before l restoring l.informer_started h (λ x. cc)
Passes-IsStopped before (restored l e) h =
    at_stage before l starting_managers l.informer_started h (λ x. cc)
Passes-IsStopped before (watching l e) h = record {
  context = h.context;
  stop_ch = h.stop_ch;
  store = h.store;
  manager = elim h.manager [ inl (b, m) ↦ inl (b, inr refl) | inr (b, m, x) ↦ cc ];
}
Passes-IsStopped before (logged l e) h = at_stage before l informing true h (λ x. refl)
Passes-IsStopped before (ends l e) h = at_stage before l returned l.informer_started h (λ x. refl)

Passed-IsStopped :
    (before : Signal) {a b : Lifecycle} → Passed a b → IsStopped before a → IsStopped before b
Passed-IsStopped before (here l) h = h
Passed-IsStopped before (further go more) h =
    Passed-IsStopped before more (Passes-IsStopped before go h)

watches-IsStopped :
    (before : Signal) (l : Lifecycle)
    → IsStopped before l
    → watches l ≡ (is_absent before && not (is_absent l.manager))
watches-IsStopped before l h = elim h.manager [
  | inl (b, inl e) ↦ rw (b, e) refl
  | inl (b, inr e) ↦ rw (b, e) refl
  | inr (b, e, x) ↦ rw (b, e) refl
]

start-IsRunning :
    {Client : Type 0} (client : Client) → IsRunning (start (found client) provisioned).1
unfolding start
start-IsRunning client = record {
  context = refl;
  stop_ch = refl;
  manager = inl refl;
  unmade = λ x. refl;
}

-- What is true of an application after its stop.
pub record IsAfter (before after : Lifecycle) : Type 0 where
  pub no_informer : informs after ≡ false
  pub cancelled : after.context ≡ closed
  pub no_store : after.store_open ≡ false
  pub watching_still : watches after ≡ (is_absent before.manager && not (is_absent after.manager))
  pub no_second_stop : stop after ≡ none

-- At any stage of an application that was started, the first stop does not panic. Whatever stages pass
-- after it, no informer of Ingresses runs, the context of the handlers is cancelled and the store is
-- closed; the watcher of secrets runs just when its manager was made after the stop; and another stop
-- panics.
pub stop-IsAfter :
    {Client : Type 0} {a : Lifecycle} (client : Client)
    → Passed (start (found client) provisioned).1 a
    → (b : Lifecycle) × (stop a ≡ some b) × ((c : Lifecycle) → Passed b c → IsAfter a c)
unfolding stop
stop-IsAfter {Client} {a} client passed =
    let (b, e, h) = stop-IsStopped a (Passed-IsRunning passed (start-IsRunning client)) in
    (
      b,
      e,
      λ c more.
          let g = Passed-IsStopped a.manager more h in
          record {
            no_informer = ground (arith, g.stop_ch);
            cancelled = g.context;
            no_store = g.store;
            watching_still = watches-IsStopped a.manager c g;
            no_second_stop = rw (stop, g.stop_ch) refl;
          },
    )
