-- ===== src/App/Overlap/Done.antt =====
-- What handlers of app.go that overlap have done, and how many requests they make.
use caddy_k8s.Base.{
  ℕ, String, Option, ◌*◌, ◌≤◌, ◌≡◌, refl, sym, ap, ◌∙◌, ◌⊎◌, inl, inr, true, List, [], ◌∷◌, ◌++◌,
  All, length, Bool-cases,
}
use mathlib.Core.Path.{subst}
use caddy_k8s.Hosts.{distinct}
use caddy_k8s.Admin.Client.{Net}
use caddy_k8s.Admin.Threads.{Job, IsFitJob, FallibleServer}
use caddy_k8s.Admin.Threads.Programs.{IsNamed, program_of}
use caddy_k8s.Admin.Threads.Pool.{
  Thread, is_finished, start, jobs_of, ids, Turn, first, later, Runs, rest_here, turn, outside,
  HasDone, Runs-HasDone,
}
use caddy_k8s.Admin.Threads.Bounds.{Runs-bound}
use caddy_k8s.App.Overlap.{
  Plan, jobs_for, all_jobs, together, start_all, Works, now, past, Handles, this, that, Overlaps,
  over, request, meanwhile,
}

module _ (net : Net) where
  start-append : (xs ys : List Job) → start net (xs ++ ys) ≡ start net xs ++ start net ys
  start-append [] ys = refl
  start-append (x ∷ xs) ys =
      let t : Thread = record { job = x; rest = program_of net x } in
      ap (λ ts. t ∷ ts) (start-append xs ys)

  start-all_jobs : (plans : List Plan) → start net (all_jobs plans) ≡ together (start_all net plans)
  start-all_jobs [] = refl
  start-all_jobs (plan ∷ plans) =
      start-append (jobs_for plan) (all_jobs plans)
      ∙ ap (λ ts. start net (jobs_for plan) ++ ts) (start-all_jobs plans)

  Turn-before :
      {ts ts' : List Thread} {w w' : net.World} (rest : List Thread)
      → Turn net ts w ts' w'
      → Turn net (ts ++ rest) w (ts' ++ rest) w'
  Turn-before rest (first t ts w e) = first t (ts ++ rest) w e
  Turn-before rest (later t go) = later t (Turn-before rest go)

  Turn-behind :
      {ts ts' : List Thread} {w w' : net.World} (front : List Thread)
      → Turn net ts w ts' w'
      → Turn net (front ++ ts) w (front ++ ts') w'
  Turn-behind [] go = go
  Turn-behind (t ∷ front) go = later t (Turn-behind front go)

  Works-Turn :
      {ts ts' : List Thread} {w w' : net.World} → Works net ts w ts' w' → Turn net ts w ts' w'
  Works-Turn (now t ts w e) = first t ts w e
  Works-Turn (past t e go) = later t (Works-Turn go)

  Handles-Turn :
      {hs hs' : List (List Thread)} {w w' : net.World}
      → Handles net hs w hs' w'
      → Turn net (together hs) w (together hs') w'
  Handles-Turn (this hs go) = Turn-before (together hs) (Works-Turn go)
  Handles-Turn (that ts go) = Turn-behind ts (Handles-Turn go)

  can_work :
      (ts : List Thread) (w : net.World)
      → All (λ t. is_finished t.rest ≡ true) ts
        ⊎ ((ts' : List Thread) × (w' : net.World) × Works net ts w ts' w')
  can_work [] w = inl tt
  can_work (t ∷ ts) w = elim (Bool-cases (is_finished t.rest)) [
    | inr e ↦ inr (_, _, now t ts w e)
    | inl e ↦ elim (can_work ts w) [
      | inl es ↦ inl (e, es)
      | inr (ts', w', go) ↦ inr (t ∷ ts', w', past t e go)
    ]
  ]

  can_handle :
      (hs : List (List Thread)) (w : net.World)
      → All (All (λ t. is_finished t.rest ≡ true)) hs
        ⊎ ((hs' : List (List Thread)) × (w' : net.World) × Handles net hs w hs' w')
  can_handle [] w = inl tt
  can_handle (ts ∷ hs) w = elim (can_work ts w) [
    | inr (ts', w', go) ↦ inr (ts' ∷ hs, w', this hs go)
    | inl e ↦ elim (can_handle hs w) [
      | inl es ↦ inl (e, es)
      | inr (hs', w', go) ↦ inr (ts ∷ hs', w', that ts go)
    ]
  ]

  module _ (view : net.World → String → Option String) where
    Overlaps-Runs :
        {n : ℕ} {hs us : List (List Thread)} {w v : net.World}
        → Overlaps net view n hs w us v
        → Runs net view n (together hs) w (together us) v
    Overlaps-Runs (over hs w) = rest_here (together hs) w
    Overlaps-Runs (request go more) = turn (Handles-Turn go) (Overlaps-Runs more)
    Overlaps-Runs (meanwhile w' same more) = outside w' same (Overlaps-Runs more)

    Overlaps-start :
        {n : ℕ} {us : List (List Thread)} {w v : net.World} (plans : List Plan)
        → Overlaps net view n (start_all net plans) w us v
        → Runs net view n (start net (all_jobs plans)) w (together us) v
    Overlaps-start {n} {us} {w} {v} plans runs =
        subst (λ ts. Runs net view n ts w (together us) v) (sym (start-all_jobs plans))
          (Overlaps-Runs runs)

    -- Handlers that overlap make together at most eleven requests and waits for each route and each stale
    -- id, whatever the order and the answers, and for any view of the world that others leave alone, also
    -- the view of nothing, with which they may do anything; and while a handler has not come to its end,
    -- one can go on.
    pub Overlaps-bound :
        {n : ℕ} {us : List (List Thread)} {w v : net.World} (plans : List Plan)
        → Overlaps net view n (start_all net plans) w us v
        → (n ≤ 11 * length (all_jobs plans))
          × (All (All (λ t. is_finished t.rest ≡ true)) us
              ⊎ ((hs : List (List Thread)) × (w' : net.World) × Handles net us v hs w'))
    Overlaps-bound plans runs =
        ((Runs-bound net view (all_jobs plans) (Overlaps-start plans runs)).0, can_handle _ _)

  module _ (s : FallibleServer net) where
    -- Handlers with different ids, those of the routes not blank, whose routes with the ids nested in them
    -- keep to the routes that these belong to, and whose stale ids are not nested in a route; on a network
    -- that may fail and with others who leave these routes alone, in any order of their requests: the
    -- operations are those that the handlers are to do, and each that has returned without an error has
    -- done its job.
    pub Overlaps-HasDone :
        {n : ℕ} {us : List (List Thread)} {w v : net.World} (plans : List Plan)
        → All IsNamed (all_jobs plans)
        → All (IsFitJob s.home) (all_jobs plans)
        → distinct (ids (all_jobs plans)) ≡ true
        → Overlaps net s.routes n (start_all net plans) w us v
        → (jobs_of (together us) ≡ all_jobs plans) × All (HasDone net s v) (together us)
    Overlaps-HasDone plans named fits d runs =
        Runs-HasDone net s (all_jobs plans) named fits d (Overlaps-start s.routes plans runs)
