-- ===== src/App/Lifecycle.antt =====
-- `Start`, `Stop` and the goroutine of `run` in app.go: what runs when. The goroutine goes through the
-- stages of `run` by itself, and `Stop` may come between any two of them.
pub mod Stopped
use caddy_k8s.Base.{
  String, Bool, true, false, not, ◌&&◌, Option, none, some, ◌≡◌, ◌>>=◌, if◌then◌else◌,
}
use caddy_k8s.Signal.{Signal, absent, live, closed, is_live, is_absent, close, cancel}
use caddy_k8s.Admin.Client.{Fetched, found, failure}

-- Where the goroutine of `run` stands.
pub data Stage : Type 0 where
  not_started finding_https finding_http restoring starting_managers logging informing returned :
      Stage

pub record Lifecycle : Type 0 where
  pub context : Signal
  pub stop_ch : Signal
  -- the stop channel of the certificate manager; absent while there is no manager
  pub manager : Signal
  pub informer_started : Bool
  pub store_open : Bool
  pub stage : Stage

-- `Provision` makes the stop channel and the store.
abbrev pub provisioned : Lifecycle
provisioned = record {
  context = absent;
  stop_ch = live;
  manager = absent;
  informer_started = false;
  store_open = true;
  stage = not_started;
}

-- The goroutine begins once there is a client.
abbrev pub start_with : {Client : Type 0} → Fetched Client → Lifecycle → Option String × Lifecycle
start_with (failure e) l = (some e, l)
start_with (found client) l = (none, record l { stage = finding_https })

unfoldable pub start : {Client : Type 0} → Fetched Client → Lifecycle → Option String × Lifecycle
start client l = start_with client (record l { context = live })

-- `Stop` of the certificate manager, if there is one.
abbrev pub stop_manager : Signal → Option Signal
stop_manager absent = some absent
stop_manager live = close live
stop_manager closed = close closed

-- `Stop`; none is a panic.
unfoldable pub stop : Lifecycle → Option Lifecycle
stop l = do
  stop_ch ← close l.stop_ch
  manager ← stop_manager l.manager
  some (record l {
    context = cancel l.context;
    stop_ch = stop_ch;
    manager = manager;
    store_open = false;
  })

-- One stage of `run` passes: while it looks for the HTTPS server it may give up if it is stopped.
pub data Passes : Lifecycle → Lifecycle → Type 0 where
  waits : (l : Lifecycle) → l.stage ≡ finding_https → Passes l l
  gives_up :
      (l : Lifecycle)
      → l.stage ≡ finding_https
      → l.stop_ch ≡ closed
      → Passes l (record l { stage = returned })
  https_found :
      (l : Lifecycle) → l.stage ≡ finding_https → Passes l (record l { stage = finding_http })
  http_looked : (l : Lifecycle) → l.stage ≡ finding_http → Passes l (record l { stage = restoring })
  restored :
      (l : Lifecycle) → l.stage ≡ restoring → Passes l (record l { stage = starting_managers })
  watching :
      (l : Lifecycle)
      → l.stage ≡ starting_managers
      → Passes l (record l { manager = live; stage = logging })
  logged :
      (l : Lifecycle)
      → l.stage ≡ logging
      → Passes l (record l { informer_started = true; stage = informing })
  ends : (l : Lifecycle) → l.stage ≡ informing → Passes l (record l { stage = returned })

pub data Passed : Lifecycle → Lifecycle → Type 0 where
  here : (l : Lifecycle) → Passed l l
  further : {a b c : Lifecycle} → Passes a b → Passed b c → Passed a c

-- The informer of the Ingresses runs until the stop channel is closed, and so does the watcher of the
-- secrets with its own.
abbrev pub informs : Lifecycle → Bool
informs l = l.informer_started && is_live l.stop_ch

abbrev pub watches : Lifecycle → Bool
watches l = is_live l.manager
