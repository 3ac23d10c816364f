-- ===== src/App/Ready.antt =====
-- What the start of the application leads to: the names of the servers, and a run with the records of the
-- store.
use caddy_k8s.Base.{
  ℕ, zero, suc, ◌<◌, String, ◌≡◌, refl, ◌∙◌, ap, Bool, true, false, ◌&&◌, ◌||◌, Option, none, some,
  List, [], ◌∷◌, ◌==◌, eq_iff, any, arith, if◌then◌else◌, Bool-cases, inl, inr,
}
use text.Mathlib.TextPositions.{eq_refl}
use caddy_k8s.Dict.{Dict}
use caddy_k8s.Strings.{is_blank, has_suffix}
use caddy_k8s.Admin.Client.{Net, found, failure}
use caddy_k8s.Admin.Policies.{resolve_server_name}
use caddy_k8s.Store.Interface.{RouteStore, IsFaithful}
use caddy_k8s.Reloader.{default_to}
use caddy_k8s.Caddyfile.Options.{Settings}
use caddy_k8s.App.State.{App}
use caddy_k8s.App.Events.{restore}
use caddy_k8s.App.Coherent.{AreCoherent, restore-AreCoherent}
use caddy_k8s.App.Start.{
  ServerNames, take_name, take_address, take_addresses, take_servers, provision_names, ready,
  wait_for_server, launch, run, enable_log,
}

abbrev is_on : String → List String → Bool
is_on port listen = any (λ address. has_suffix address port) listen

-- A server of the name listens on the port.
abbrev pub listens : String → String → Dict (List String) → Bool
listens port k [] = false
listens port k ((name, listen) ∷ rest) = (name == k && is_on port listen) || listens port k rest

-- The first name of a server on the port, if none is known yet.
abbrev pick : String → Dict (List String) → String → String
pick port [] known = known
pick port ((name, listen) ∷ rest) known =
    pick port rest (if is_blank known && is_on port listen then name else known)

take_name-is_on :
    (port name address known : String) (rest : List String)
    → (if is_blank (take_name port name address known) && is_on port rest
        then name
        else take_name port name address known)
      ≡ (if is_blank known && is_on port (address ∷ rest) then name else known)
take_name-is_on port name address known rest = elim (Bool-cases (is_blank known)) [
  | inr e ↦ rw (e, e) refl
  | inl e ↦ elim (Bool-cases (has_suffix address port)) [
    | inr f ↦ rw (e, f, e) refl
    | inl f ↦ elim (Bool-cases (is_blank name && is_on port rest)) [
      | inl g ↦ rw (e, f, g) refl
      | inr g ↦ rw (e, f, g) refl
    ]
  ]
]

-- The two names of the loops over the servers, each with the loop of its own port.
take_addresses-is_on :
    (name : String) (listen : List String) (n : ServerNames)
    → ((take_addresses name listen n).https
        ≡ (if is_blank n.https && is_on ":443" listen then name else n.https))
      × ((take_addresses name listen n).http
          ≡ (if is_blank n.http && is_on ":80" listen then name else n.http))
unfolding take_addresses
take_addresses-is_on name [] n = (ground arith, ground arith)
take_addresses-is_on name (address ∷ rest) n =
    let (https, http) = take_addresses-is_on name rest (take_address name address n) in
    (
      https ∙ take_name-is_on ":443" name address n.https rest,
      http ∙ take_name-is_on ":80" name address n.http rest,
    )

take_servers-pick :
    (servers : Dict (List String)) (n : ServerNames)
    → ((take_servers servers n).https ≡ pick ":443" servers n.https)
      × ((take_servers servers n).http ≡ pick ":80" servers n.http)
unfolding take_servers
take_servers-pick [] n = (refl, refl)
take_servers-pick ((name, listen) ∷ rest) n =
    let (https, http) = take_servers-pick rest (take_addresses name listen n) in
    let (https', http') = take_addresses-is_on name listen n in
    (https ∙ ap (pick ":443" rest) https', http ∙ ap (pick ":80" rest) http')

pick-known :
    (port : String) (servers : Dict (List String)) (known : String)
    → is_blank known ≡ false
    → pick port servers known ≡ known
pick-known port [] known h = refl
pick-known port ((name, listen) ∷ rest) known h = rw h (pick-known port rest known h)

-- A name that comes out is that of a server on the port, and there is one if a named server is on it.
pub record IsChosen (port : String) (servers : Dict (List String)) (name : String) : Type 0 where
  pub sound : is_blank name ≡ false → listens port name servers ≡ true
  pub complete :
      (k : String) → is_blank k ≡ false → listens port k servers ≡ true → is_blank name ≡ false

pick-IsChosen :
    (port : String) (servers : Dict (List String)) (known : String)
    → is_blank known ≡ true
    → IsChosen port servers (pick port servers known)
pick-IsChosen port [] known h = record { sound = λ e. cc; complete = λ k named e. cc }
pick-IsChosen port ((name, listen) ∷ rest) known h = elim (Bool-cases (is_on port listen)) [
  | inr off ↦
      let r = pick-IsChosen port rest known h in
      rw (h, off)
        (record {
          sound = λ e. ground (arith, r.sound e);
          complete = λ k named e. r.complete k named (ground (arith, e));
        })
  | inl on ↦ elim (Bool-cases (is_blank name)) [
    | inr named ↦
        rw (h, on, pick-known port rest name named)
          (record { sound = λ e. ground (arith, eq_refl name); complete = λ k other e. named })
    | inl blank ↦
        let r = pick-IsChosen port rest name blank in
        rw (h, on)
          (record {
            sound = λ e. ground (arith, r.sound e);
            complete = λ k named e. r.complete k named (ground (arith, eq_iff name k, e));
          })
  ]
]

-- A configured name is taken as it is; otherwise the name is chosen among the servers.
pub record IsProvisioned (port configured : String) (servers : Dict (List String)) (name : String)
    : Type 0 where
  pub given : is_blank configured ≡ false → name ≡ configured
  pub chosen : is_blank configured ≡ true → IsChosen port servers name

default_to-IsProvisioned :
    (port configured : String) (servers : Dict (List String)) (found_name : String)
    → (is_blank configured ≡ true → IsChosen port servers found_name)
    → IsProvisioned port configured servers (default_to found_name configured)
default_to-IsProvisioned port configured servers found_name h =
    elim (Bool-cases (is_blank configured)) [
      | inl e ↦ rw e (record { given = λ f. cc; chosen = λ f. h f })
      | inr e ↦ rw e (record { given = λ f. refl; chosen = λ f. cc })
    ]

-- Provisioning takes each configured name as it is. A name that is not configured is that of a server
-- on the port, 443 and 80, wherever a named server listens there, and blank otherwise, whatever the
-- order of the visit of the servers.
pub provision_names-IsProvisioned :
    (s : Settings) (servers : Dict (List String))
    → let names = provision_names s (some servers) in
      IsProvisioned ":443" s.server_name servers names.https
      × IsProvisioned ":80" s.http_server_name servers names.http
unfolding provision_names
provision_names-IsProvisioned s servers =
    let (https, http) = take_servers-pick servers (record { https = ""; http = "" }) in
    (
      default_to-IsProvisioned ":443" s.server_name servers _
          (λ e. rw (e, https) (pick-IsChosen ":443" servers "" refl)),
      default_to-IsProvisioned ":80" s.http_server_name servers _ (λ e.
          elim (Bool-cases (is_blank s.server_name)) [
            | inl f ↦ rw (f, http) (pick-IsChosen ":80" servers "" refl)
            | inr f ↦ rw (f, e, http) (pick-IsChosen ":80" servers "" refl)
          ]),
    )

module _ (net : Net) (pause : net.World → Bool × net.World) where
  -- The HTTPS server is found after so many refusals, and the application is not stopped meanwhile.
  pub data Appears (hint name : String) (w' : net.World) : ℕ → net.World → Type 0 where
    now :
        (w : net.World)
        → resolve_server_name net hint ":443" w ≡ (found name, w')
        → Appears hint name w' 0 w
    later :
        {n : ℕ} (w w1 w2 : net.World) (e : String)
        → resolve_server_name net hint ":443" w ≡ (failure e, w1)
        → pause w1 ≡ (false, w2)
        → Appears hint name w' n w2
        → Appears hint name w' (suc n) w

  wait_for_server-Appears :
      (fuel : ℕ) {n : ℕ} {w : net.World} (hint name : String) (w' : net.World)
      → Appears hint name w' n w
      → n < fuel
      → wait_for_server net pause fuel hint w ≡ ready (name, w')
  unfolding wait_for_server
  wait_for_server-Appears zero hint name w' appears lt = absurd (omega arith)
  wait_for_server-Appears (suc fuel) hint name w' (now w e) lt = rw e refl
  wait_for_server-Appears (suc fuel) hint name w' (later w w1 w2 t e p rest) lt =
      rw (e, p) (wait_for_server-Appears fuel hint name w' rest (omega arith))

  module _ (store : RouteStore) (view : store.State → String → Option (List String)) where
    -- The application has the HTTPS server's name and the records of the store, and a manager of the access
    -- log where it is wanted.
    pub record IsReady (s : Settings) (name : String) (a : App store) : Type 0 where
      pub named : a.server_name ≡ name
      pub coherent : AreCoherent store view a
      pub unlogged : s.access_log ≡ false → a.access_log_mgr ≡ none

    -- With more fuel than the refusals before the HTTPS server is found, `run` gets ready: with a faithful
    -- store and no records before, the application has the server's name and the records of the store.
    pub run-IsReady :
        IsFaithful store view
        → (n fuel : ℕ) (s : Settings) (a : App store) (w w' : net.World) (name : String)
        → is_blank a.server_name ≡ true
        → a.route_ids ≡ []
        → Appears s.server_name name w' n w
        → n < fuel
        → (out : App store × net.World) × (run net pause store fuel s a w ≡ ready out)
          × IsReady s name out.0
    unfolding run launch enable_log restore
    run-IsReady faithful n fuel s a w w' name unknown fresh appears lt =
        let out = launch net pause store s (name, w') a in
        (
          out,
          rw (unknown, wait_for_server-Appears fuel s.server_name name w' appears lt) refl,
          record {
            named = refl;
            coherent = λ k.
                restore-AreCoherent store view faithful
                  (record a { server_name = name; http_server_name = out.0.http_server_name }) fresh
                  k;
            unlogged = λ e. rw e refl;
          },
        )
