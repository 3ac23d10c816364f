-- ===== src/Admin/Threads/Pool.antt =====
-- Several goroutines that use the client at once: their requests in any order, with whatever else asks the
-- server in between.
use caddy_k8s.Base.{
  ℕ, suc, String, ◌≡◌, refl, ◌∙◌, ap, sym, Bool, true, false, Option, none, List, [], ◌∷◌, eq_iff,
  arith, All,
}
use mathlib.Core.Path.{subst}
use caddy_k8s.Hosts.{elem, distinct}
use caddy_k8s.Admin.Client.{Net}
use caddy_k8s.Admin.Program.{Program, ret, ask, pause, step}
use caddy_k8s.Admin.Threads.{Job, id_of, IsFitJob, FallibleServer, IsDone, Safe}
use caddy_k8s.Admin.Threads.Programs.{IsNamed, program_of}
use caddy_k8s.Admin.Threads.Steps.{IsSafe, IsSafeAt, step-IsStep, program_of-Safe, returned-IsDone}

-- A goroutine: what it is to do, and what is left of it.
pub record Thread : Type 0 where
  pub job : Job
  pub rest : Program

abbrev pub is_finished : Program → Bool
is_finished (ret o) = true
is_finished (ask m path body k) = false
is_finished (pause n k) = false

abbrev pub jobs_of : List Thread → List Job
jobs_of [] = []
jobs_of (t ∷ ts) = t.job ∷ jobs_of ts

abbrev pub ids : List Job → List String
ids [] = []
ids (job ∷ jobs) = id_of job ∷ ids jobs

module _ (net : Net) where
  abbrev pub start : List Job → List Thread
  start [] = []
  start (job ∷ jobs) = record { job = job; rest = program_of net job } ∷ start jobs

  -- One goroutine that has not returned makes its next request.
  pub data Turn : List Thread → net.World → List Thread → net.World → Type 0 where
    first :
        (t : Thread) (ts : List Thread) (w : net.World)
        → is_finished t.rest ≡ false
        → Turn (t ∷ ts) w (record t { rest = (step net t.rest w).0 } ∷ ts) (step net t.rest w).1
    later :
        (t : Thread) {ts ts' : List Thread} {w w' : net.World}
        → Turn ts w ts' w'
        → Turn (t ∷ ts) w (t ∷ ts') w'

  jobs_of-Turn :
      {ts ts' : List Thread} {w w' : net.World} → Turn ts w ts' w' → jobs_of ts' ≡ jobs_of ts
  jobs_of-Turn (first t ts w e) = refl
  jobs_of-Turn (later t go) = ap (λ js. t.job ∷ js) (jobs_of-Turn go)

  -- What others leave alone is given by a view of the world, by id.
  module _ (routes : net.World → String → Option String) where
    -- A number of turns of the goroutines, and what others do in between: in the view, they leave the
    -- ids that the goroutines are about alone.
    pub data Runs : ℕ → List Thread → net.World → List Thread → net.World → Type 0 where
      rest_here : (ts : List Thread) (w : net.World) → Runs 0 ts w ts w
      turn :
          {n : ℕ} {ts ts' us : List Thread} {w w' v : net.World}
          → Turn ts w ts' w'
          → Runs n ts' w' us v
          → Runs (suc n) ts w us v
      outside :
          {n : ℕ} {ts us : List Thread} {w v : net.World} (w' : net.World)
          → ((k : String) → elem k (ids (jobs_of ts)) ≡ true → routes w' k ≡ routes w k)
          → Runs n ts w' us v
          → Runs n ts w us v

  module _ (s : FallibleServer net) where
    open s use {home, routes}

    -- Every goroutine is safe where it stands.
    abbrev AreSafe : List Thread → net.World → Type 0
    AreSafe [] w = Unit
    AreSafe (t ∷ ts) w = IsSafeAt net s t.job w t.rest × AreSafe ts w

    AreSafe-same :
        (ts : List Thread) (w w' : net.World)
        → ((k : String) → elem k (ids (jobs_of ts)) ≡ true → routes w' k ≡ routes w k)
        → AreSafe ts w
        → AreSafe ts w'
    AreSafe-same [] w w' same _ = tt
    AreSafe-same (t ∷ ts) w w' same ((fit, h), hs) = (
      (
        fit,
        subst (λ v. Safe net t.job s.stored v t.rest)
            (sym (same (id_of t.job) (ground (arith, eq_iff (id_of t.job) (id_of t.job))))) h,
      ),
      AreSafe-same ts w w' (λ k e. same k (ground (arith, e))) hs,
    )

    others-Turn :
        {ts ts' : List Thread} {w w' : net.World}
        → Turn ts w ts' w'
        → AreSafe ts w
        → (k : String) → elem k (ids (jobs_of ts)) ≡ false
        → routes w' k ≡ routes w k
    others-Turn (first t ts w e) (h, hs) k apart =
        (step-IsStep net s t.job w t.rest h).others k (ground (arith, apart))
    others-Turn (later t go) (h, hs) k apart = others-Turn go hs k (ground (arith, apart))

    AreSafe-Turn :
        {ts ts' : List Thread} {w w' : net.World}
        → Turn ts w ts' w'
        → distinct (ids (jobs_of ts)) ≡ true
        → AreSafe ts w
        → AreSafe ts' w'
    AreSafe-Turn (first t ts w e) d (h, hs) =
        let st = step-IsStep net s t.job w t.rest h in
        (
          (h.0, st.safe),
          AreSafe-same ts w _
              (λ k held. st.others k (ground (arith, d, held, eq_iff (id_of t.job) k))) hs,
        )
    AreSafe-Turn (later t go) d ((fit, h), hs) = (
      (
        fit,
        subst (λ v. Safe net t.job s.stored v t.rest)
            (sym (others-Turn go hs (id_of t.job) (ground (arith, d)))) h,
      ),
      AreSafe-Turn go (ground (arith, d)) hs,
    )

    pub Runs-AreSafe :
        {n : ℕ} {ts us : List Thread} {w v : net.World}
        → Runs routes n ts w us v
        → distinct (ids (jobs_of ts)) ≡ true
        → AreSafe ts w
        → (jobs_of us ≡ jobs_of ts) × AreSafe us v
    Runs-AreSafe (rest_here ts w) d h = (refl, h)
    Runs-AreSafe (turn go more) d h =
        let same = jobs_of-Turn go in
        let (again, safe) =
          Runs-AreSafe more (ap (λ js. distinct (ids js)) same ∙ d) (AreSafe-Turn go d h) in
        (again ∙ same, safe)
    Runs-AreSafe (outside w' same more) d h = Runs-AreSafe more d (AreSafe-same _ _ w' same h)

    start-AreSafe :
        (jobs : List Job) (w : net.World)
        → All IsNamed jobs
        → All (IsFitJob home) jobs
        → AreSafe (start jobs) w
    start-AreSafe [] w _ _ = tt
    start-AreSafe (job ∷ jobs) w (named, rest) (fit, fits) =
        ((fit, program_of-Safe net s job _ named), start-AreSafe jobs w rest fits)

    jobs_of-start : (jobs : List Job) → jobs_of (start jobs) ≡ jobs
    jobs_of-start [] = refl
    jobs_of-start (job ∷ jobs) = ap (λ js. job ∷ js) (jobs_of-start jobs)

    -- A goroutine that has returned without an error has done its job.
    abbrev pub HasDone : net.World → Thread → Type 0
    HasDone w t = t.rest ≡ ret none → IsDone net t.job (routes w (id_of t.job))

    AreSafe-HasDone : (ts : List Thread) (w : net.World) → AreSafe ts w → All (HasDone w) ts
    AreSafe-HasDone [] w _ = tt
    AreSafe-HasDone (t ∷ ts) w ((fit, h), hs) = (
      λ e. returned-IsDone net s t.job none (subst (IsSafe net s t.job w) e h) refl,
      AreSafe-HasDone ts w hs,
    )

    -- In every run of goroutines with different ids, those of the upserts not blank, whose routes keep to
    -- those that their ids belong to, on a network that may fail and with others who leave these ids alone: the goroutines keep their jobs, and each that has
    -- returned without an error has done its job, whatever the order of the requests.
    pub Runs-HasDone :
        {n : ℕ} {w v : net.World} {us : List Thread} (jobs : List Job)
        → All IsNamed jobs
        → All (IsFitJob home) jobs
        → distinct (ids jobs) ≡ true
        → Runs routes n (start jobs) w us v
        → (jobs_of us ≡ jobs) × All (HasDone v) us
    Runs-HasDone jobs named fits d runs =
        let same = jobs_of-start jobs in
        let (again, safe) =
          Runs-AreSafe runs (ap (λ js. distinct (ids js)) same ∙ d)
            (start-AreSafe jobs _ named fits) in
        (again ∙ same, AreSafe-HasDone _ _ safe)
