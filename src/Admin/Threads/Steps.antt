-- ===== src/Admin/Threads/Steps.antt =====
-- One step, and a whole run, of a program of admin.go on a server that may fail.
use mathlib.Core.Path.{subst}
use caddy_k8s.Base.{String, ◌≡◌, refl, ◌∙◌, ap, sym, false, Option, none, some, ◌==◌, arith}
use caddy_k8s.Strings.{is_blank}
use caddy_k8s.Routes.Model.{CaddyRoute, marshal_route}
use caddy_k8s.Routes.Nested.{IsFit}
use caddy_k8s.Admin.Client.{
  get, post, delete, Net, id_path, routes_path, upsert_route, delete_route,
}
use caddy_k8s.Admin.Program.{Program, ret, ask, pause, step, run, upsert_program}
use caddy_k8s.Admin.Program.Agrees.{program-run}
use caddy_k8s.Admin.Threads.{
  Job, put, drop, id_of, IsFitJob, FallibleServer, IsDone, Safe, returning, reading, dropping,
  adding, waiting,
}
use caddy_k8s.Admin.Threads.Programs.{IsNamed, program_of, attempting-Safe, delete_program-Safe}

module _ (net : Net) where
  module _ (s : FallibleServer net) where
    open s use {home, routes, stored}

    pub program_of-Safe :
        (job : Job) (v : Option String) → IsNamed job → Safe net job stored v (program_of net job)
    unfolding upsert_program
    program_of-Safe (put server r) v named =
        attempting-Safe net stored server r (s.stored_current r) named 3 0 none v
          (λ z. absurd (omega arith))
    program_of-Safe (drop id) v named = delete_program-Safe net stored id v

    -- The program is safe at the text that the server has under the id.
    abbrev pub IsSafe : Job → net.World → Program → Type 0
    IsSafe job w p = Safe net job stored (routes w (id_of job)) p

    -- It is, and its job keeps to the route that its ids belong to.
    abbrev pub IsSafeAt : Job → net.World → Program → Type 0
    IsSafeAt job w p = IsFitJob home job × IsSafe job w p

    own_id : (job : Job) → IsFitJob home job → home (id_of job) ≡ id_of job
    own_id (put server r) fit = fit.own
    own_id (drop id) own = own

    pub returned-IsDone :
        (job : Job) {v : Option String} (o : Option String)
        → Safe net job stored v (ret o)
        → o ≡ none
        → IsDone net job v
    returned-IsDone job o (returning v o' done) ok = done ok

    -- A step of a safe program: it is safe after it, and the other routes are as before.
    pub record IsStep (job : Job) (w : net.World) (next : Program × net.World) : Type 0 where
      pub safe : IsSafe job next.1 next.0
      pub others : (k : String) → (id_of job == k) ≡ false → routes next.1 k ≡ routes w k

    step_at :
        (job : Job) (w : net.World) {v : Option String} {p : Program}
        → IsFitJob home job
        → Safe net job stored v p
        → routes w (id_of job) ≡ v
        → IsStep job w (step net p w)
    unfolding step
    step_at job w fit (returning v o done) e = record {
      safe = subst (λ t. Safe net job stored t (ret o)) (sym e) (returning v o done);
      others = λ k other. refl;
    }
    step_at job w fit (reading v k go) e =
        let (reply, w') = net.send get (id_path (id_of job)) none w in
        record {
          safe =
              subst (λ t. Safe net job stored t (k reply))
                (sym (s.get_keeps w (id_of job) (id_of job) ∙ e))
                (go reply (record {
                  found_text = λ b a. sym e ∙ s.get_found w (id_of job) b (own_id job fit) a;
                  missing = λ b a. sym e ∙ s.get_missing w (id_of job) b (own_id job fit) a;
                }));
          others = λ k other. s.get_keeps w (id_of job) k;
        }
    step_at job w fit (dropping v k go) e =
        let (reply, w') = net.send delete (id_path (id_of job)) none w in
        record {
          safe =
              go reply (routes w' (id_of job))
                (λ ok. s.delete_drops w (id_of job) (own_id job fit) ok);
          others =
              λ k other. s.delete_keeps w (id_of job) k (ap (λ i. i == k) (own_id job fit) ∙ other);
        }
    step_at job w fit (adding v server r k same named absent go) e =
        let (reply, w') =
          net.send post (routes_path server) (some (net.marshal (marshal_route r))) w in
        let free : routes w r.id ≡ none = ap (λ j. routes w (id_of j)) (sym same) ∙ (e ∙ absent) in
        let keeping : IsFit home r = subst (IsFitJob home) same fit in
        record {
          safe = go reply (routes w' (id_of job)) (λ ok.
              ap (λ j. routes w' (id_of j)) same ∙ s.post_adds w server r named keeping free ok);
          others = λ k other.
              s.post_keeps w server r k named keeping (ap (λ j. id_of j == k) (sym same) ∙ other);
        }
    step_at job w fit (waiting v n k go) e =
        let (gone, w') = net.wait n w in
        record {
          safe =
              subst (λ t. Safe net job stored t (k gone)) (sym (s.wait_keeps w n (id_of job) ∙ e))
                (go gone);
          others = λ k other. s.wait_keeps w n k;
        }

    pub step-IsStep :
        (job : Job) (w : net.World) (p : Program) → IsSafeAt job w p → IsStep job w (step net p w)
    step-IsStep job w p (fit, h) = step_at job w fit h refl

    -- A safe program that is run to its end.
    pub record IsRun (job : Job) (w : net.World) (out : Option String × net.World) : Type 0 where
      pub done : out.0 ≡ none → IsDone net job (routes out.1 (id_of job))
      pub others : (k : String) → (id_of job == k) ≡ false → routes out.1 k ≡ routes w k

    IsRun-after :
        (job : Job) (w w' : net.World) (out : Option String × net.World)
        → ((k : String) → (id_of job == k) ≡ false → routes w' k ≡ routes w k)
        → IsRun job w' out
        → IsRun job w out
    IsRun-after job w w' out same r = record {
      done = r.done;
      others = λ k other. r.others k other ∙ same k other;
    }

    run_at :
        (job : Job) (w : net.World) (p : Program) → IsSafeAt job w p → IsRun job w (run net p w)
    unfolding run step
    run_at job w (ret o) (fit, h) = record {
      done = returned-IsDone job o h;
      others = λ k other. refl;
    }
    run_at job w (ask m path body k) (fit, h) =
        let (reply, w') = net.send m path body w in
        let st = step-IsStep job w (ask m path body k) (fit, h) in
        IsRun-after job w w' _ st.others (run_at job w' (k reply) (fit, st.safe))
    run_at job w (pause n k) (fit, h) =
        let (gone, w') = net.wait n w in
        let st = step-IsStep job w (pause n k) (fit, h) in
        IsRun-after job w w' _ st.others (run_at job w' (k gone) (fit, st.safe))

    -- On a network that may fail, for a route with an id, which with the ids nested in it keeps to the route
    -- that they belong to, and for an id that is not nested in a route: an upsert or a deletion that
    -- reports no error has done its job, and whether or not it reports one the top-level routes with other
    -- ids are as before.
    pub upsert_delete-IsRun :
        (server : String) (r : CaddyRoute) (id : String) (w : net.World)
        → is_blank r.id ≡ false
        → IsFit home r
        → home id ≡ id
        → IsRun (put server r) w (upsert_route net server r w)
          × IsRun (drop id) w (delete_route net id w)
    upsert_delete-IsRun server r id w named fit own =
        let (up, down) = program-run net server r id w in
        (
          subst (IsRun (put server r) w) up
              (run_at (put server r) w _ (fit, program_of-Safe (put server r) _ named)),
          subst (IsRun (drop id) w) down
              (run_at (drop id) w _ (own, program_of-Safe (drop id) _ tt)),
        )
