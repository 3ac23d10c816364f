-- ===== src/AccessLog/Skipped.antt =====
-- What the servers skip after each operation: the hosts of the Ingresses that opted out.
use mathlib.Core.Option.{some-ne-none}
use mathlib.Core.Path.{subst}
use mathlib.Core.Bool.{true≢false}
use text.Mathlib.TextPositions.{eq_refl}
use caddy_k8s.Base.{
  String, ◌≡◌, refl, sym, ap, ◌∙◌, Bool, true, false, Option, none, some, List, [], ◌∷◌, map, ◌==◌,
  ◌⊎◌, inl, inr, eq_iff, arith, any, All, if◌then◌else◌, Bool-cases,
}
use caddy_k8s.Strings.{is_blank}
use caddy_k8s.Json.{Json, texts}
use caddy_k8s.Dict.{Dict, insert, erase}
use caddy_k8s.Admin.Client.{patch, answer, Net, perform}
use caddy_k8s.Hosts.{elem, elem-append, distinct, elem-unique, distinct-unique}
use caddy_k8s.AccessLog.Manager.{
  AccessLogManager, servers, Visit, concat, skip_list, skip_path, patch_servers, recorded, rebuild,
  skip, unskip,
}

-- A visit meets each entry of a map, in any order.
pub record IsVisit (visit : Visit) : Type 0 where
  pub meets :
      (p : List String → Bool) (m : Dict (List String))
      → any p (visit m) ≡ any p (map (λ (k, hosts). hosts) m)

elem-concat : (h : String) (xss : List (List String)) → elem h (concat xss) ≡ any (elem h) xss
elem-concat h [] = refl
elem-concat h (xs ∷ xss) = ground (arith, elem-append h xs (concat xss), elem-concat h xss)

-- In whatever order the map is visited, the list of skipped hosts holds each host once, and it holds a
-- host exactly if an Ingress that opted out has it.
pub skip_list-elem :
    (visit : Visit)
    → IsVisit visit
    → (m : AccessLogManager) (h : String)
    → (distinct (skip_list visit m) ≡ true)
      × (elem h (skip_list visit m) ≡ any (elem h) (map (λ (k, hosts). hosts) m.disabled))
unfolding skip_list
skip_list-elem visit v m h =
    let hosts = concat (visit m.disabled) in
    (
      distinct-unique hosts,
      elem-unique h hosts ∙ (elem-concat h (visit m.disabled) ∙ v.meets (elem h) m.disabled),
    )

All-of_elem :
    (P : String → Type 0) (xs : List String) → ((k : String) → elem k xs ≡ true → P k) → All P xs
All-of_elem P [] h = tt
All-of_elem P (x ∷ xs) h = (h x (rw eq_refl refl), All-of_elem P xs λ k e. h k (ground arith))

module _ (net : Net) where
  -- An admin API that answers every update of a skip list: `held` is the text that a server holds.
  pub record SkipServer : Type 0 where
    pub held : net.World → String → String
    pub patch_succeeds :
        (srv body : String) (w : net.World)
        → (net.send patch (skip_path srv) (some body) w).0 ≡ answer 200 ""
    pub patch_sets :
        (srv body k : String) (w : net.World)
        → held (net.send patch (skip_path srv) (some body) w).1 k
          ≡ (if srv == k then body else held w k)
    pub marshal_inked : (j : Json) → is_blank (net.marshal j) ≡ false

  abbrev body_of : Visit → AccessLogManager → String
  body_of visit m = net.marshal (texts (skip_list visit m))

  recorded-cases :
      (m : AccessLogManager) (body : String) (sent : Option String × net.World)
      → let (e, m', w') = recorded net m body sent in
        ((e ≡ none) × (m'.last_skip ≡ body) × (m'.disabled ≡ m.disabled))
        ⊎ ((text : String) × (e ≡ some text) × (m' ≡ m))
  recorded-cases m body (none, w) = inl (refl, refl, refl)
  recorded-cases m body (some e, w) = inr (e, refl, refl)

  recorded_of_success :
      (m : AccessLogManager) (body : String) (sent : Option String × net.World)
      → sent.0 ≡ none
      → recorded net m body sent ≡ (none, record m { last_skip = body }, sent.1)
  recorded_of_success m body (none, w) e = refl
  recorded_of_success m body (some text, w) e = absurd (some-ne-none _ e)

  -- A call that fails leaves the manager as it was, so that the next one sends the list again; one that
  -- succeeds leaves the list recorded. The hosts of the Ingresses stay in both cases.
  pub rebuild_lem :
      (visit : Visit) (m : AccessLogManager) (w : net.World)
      → let (e, m', w') = rebuild net visit m w in
        ((e ≡ none)
          × (m'.last_skip ≡ net.marshal (texts (skip_list visit m)))
          × (m'.disabled ≡ m.disabled))
        ⊎ ((text : String) × (e ≡ some text) × (m' ≡ m))
  unfolding rebuild
  rebuild_lem visit m w = elim (Bool-cases (m.last_skip == body_of visit m)) [
    | inl same ↦ rw same (inl (refl, (eq_iff m.last_skip (body_of visit m)).0 same, refl))
    | inr changed ↦
        rw changed
          (recorded-cases m (body_of visit m) (patch_servers net (servers m) (body_of visit m) w))
  ]

  module _ (s : SkipServer) where
    open s use {held, patch_succeeds, patch_sets, marshal_inked}

    -- Nothing is recorded yet, or the servers hold what is recorded.
    abbrev pub IsSynced : AccessLogManager → net.World → Type 0
    IsSynced m w = (is_blank m.last_skip ≡ true) ⊎ All (λ srv. held w srv ≡ m.last_skip) (servers m)

    patch_servers-held :
        (srvs : List String) (body : String) (w : net.World)
        → ((patch_servers net srvs body w).0 ≡ none)
          × ((k : String)
              → held (patch_servers net srvs body w).1 k ≡ (if elem k srvs then body else held w k))
    unfolding patch_servers perform
    patch_servers-held [] body w = (refl, λ k. refl)
    patch_servers-held (srv ∷ srvs) body w =
        let (done, rest) =
          patch_servers-held srvs body (net.send patch (skip_path srv) (some body) w).1 in
        rw (patch_succeeds srv body w) (done, λ k. ground (arith, rest k, patch_sets srv body k w))

    -- The result of an update of a manager: no error, each server holds the list of the manager, the
    -- manager has it recorded, and the hosts of the Ingresses are as they were.
    pub record IsUpdated (visit : Visit) (m : AccessLogManager)
        (out : Option String × AccessLogManager × net.World) : Type 0 where
      pub succeeds : out.0 ≡ none
      pub skipped :
          All (λ srv. held out.2 srv ≡ net.marshal (texts (skip_list visit m))) (servers m)
      pub synced : IsSynced out.1 out.2
      pub keeps : out.1.disabled ≡ m.disabled

    holds_recorded :
        (visit : Visit) (m : AccessLogManager) (w : net.World)
        → IsSynced m w
        → m.last_skip ≡ body_of visit m
        → All (λ srv. held w srv ≡ body_of visit m) (servers m)
    holds_recorded visit m w (inl blank) e =
        absurd (true≢false (sym blank ∙ (ap is_blank e ∙ marshal_inked _)))
    holds_recorded visit m w (inr all) e =
        subst (λ t. All (λ srv. held w srv ≡ t) (servers m)) e all

    rebuild-IsUpdated :
        (visit : Visit) (m : AccessLogManager) (w : net.World)
        → IsSynced m w
        → IsUpdated visit m (rebuild net visit m w)
    unfolding rebuild servers
    rebuild-IsUpdated visit m w synced =
        let body = body_of visit m in
        elim (Bool-cases (m.last_skip == body)) [
          | inl same ↦
              let e = (eq_iff m.last_skip body).0 same in
              rw same (record {
                succeeds = refl;
                skipped = holds_recorded visit m w synced e;
                synced = synced;
                keeps = refl;
              })
          | inr changed ↦
              let (done, after) = patch_servers-held (servers m) body w in
              let all = All-of_elem _ (servers m) λ k e. after k ∙ rw e refl in
              rw (changed, recorded_of_success m body (patch_servers net (servers m) body w) done)
                (record { succeeds = refl; skipped = all; synced = inr all; keeps = refl })
        ]

    -- On a server that answers, from a synced manager: opting an Ingress out or in again succeeds, the
    -- servers then hold exactly the list of the changed manager, and it is synced.
    pub skip-IsUpdated :
        (visit : Visit) (key : String) (hosts : List String) (m : AccessLogManager) (w : net.World)
        → IsSynced m w
        → IsUpdated visit
            (record m { disabled = insert key hosts m.disabled })
            (skip net visit key hosts m w)
          × IsUpdated visit
              (record m { disabled = erase key m.disabled })
              (unskip net visit key m w)
    unfolding skip unskip servers
    skip-IsUpdated visit key hosts m w synced = (
      rebuild-IsUpdated visit (record m { disabled = insert key hosts m.disabled }) w synced,
      rebuild-IsUpdated visit (record m { disabled = erase key m.disabled }) w synced,
    )
