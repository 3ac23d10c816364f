-- ===== src/Reloader/Changes.antt =====
-- Which contents the reloader posts: those of the updates that differ from what came before.
use caddy_k8s.Base.{
  String, ◌≡◌, refl, Bool, true, not, ◌&&◌, Option, none, some, List, [], ◌∷◌, ◌==◌, if◌then◌else◌,
  arith, Bool-cases, inl, inr, map,
}
use text.Mathlib.TextPositions.{eq_refl}
use caddy_k8s.Hosts.{elem}
use caddy_k8s.Admin.Client.{Net}
use caddy_k8s.Reloader.{
  ConfigReloader, ReloadEvent, content_of, reload, handle_content, handle, handle_all,
}

abbrev pub with_flag : Bool → Option String → List (Bool × String) → List (Bool × String)
with_flag is_update none rest = rest
with_flag is_update (some content) rest = (is_update, content) ∷ rest

-- The contents that the events are about, each with whether it comes from an update.
unfoldable pub contents_of : String → String → List ReloadEvent → List (Bool × String)
contents_of config_map key [] = []
contents_of config_map key (event ∷ events) =
    with_flag event.is_update (content_of config_map key event.object)
      (contents_of config_map key events)

-- The updates that change the content, from the last content on.
unfoldable pub changes : String → List (Bool × String) → List String
changes last [] = []
changes last ((is_update, content) ∷ rest) =
    let more = changes content rest in
    if is_update && not (content == last) then content ∷ more else more

-- Among the contents, equal digests are those of equal contents.
abbrev pub IsCollisionFree : (String → String) → List String → Type 0
IsCollisionFree sum256 seen =
    (a b : String) → elem a seen ≡ true → elem b seen ≡ true → (sum256 a == sum256 b) ≡ (a == b)

abbrev pub texts_of : List (Bool × String) → List String
texts_of cs = map (λ (is_update, content). content) cs

module _ (net : Net) where
  -- The contents are posted one after the other.
  unfoldable pub reload_each : List String → net.World → net.World
  reload_each [] w = w
  reload_each (content ∷ rest) w = let (e, w') = reload net content w in reload_each rest w'

  module _ (sum256 : String → String) where
    fewer :
        (last content : String) (rest : List String)
        → IsCollisionFree sum256 (last ∷ content ∷ rest)
        → IsCollisionFree sum256 (content ∷ rest)
    fewer last content rest free a b ha hb = free a b (ground (arith, ha)) (ground (arith, hb))

    same_test :
        (last content : String) (rest : List String)
        → IsCollisionFree sum256 (last ∷ content ∷ rest)
        → (sum256 content == sum256 last) ≡ (content == last)
    same_test last content rest free =
        free content last (ground (arith, eq_refl content)) (ground (arith, eq_refl last))

    -- One event, from the same for the events after it.
    handle_content-changes :
        (o : Option String) (is_update : Bool) (events : List ReloadEvent) (r : ConfigReloader)
        (last : String) (w : net.World)
        → ((h prior : String) (v : net.World)
            → h ≡ sum256 prior
            → IsCollisionFree sum256 (prior ∷ texts_of (contents_of r.config_map r.key events))
            → (handle_all net sum256 events (record r { last_hash = h }) v).1
              ≡ reload_each (changes prior (contents_of r.config_map r.key events)) v)
        → r.last_hash ≡ sum256 last
        → IsCollisionFree sum256
            (last ∷ texts_of (with_flag is_update o (contents_of r.config_map r.key events)))
        → let (r', w') = handle_content net sum256 o is_update r w in
          (handle_all net sum256 events r' w').1
          ≡ reload_each
              (changes last (with_flag is_update o (contents_of r.config_map r.key events)))
              w
    unfolding changes reload_each
    handle_content-changes none is_update events r last w later seeded free =
        later r.last_hash last w seeded free
    handle_content-changes (some content) is_update events r last w later seeded free =
        let rest = texts_of (contents_of r.config_map r.key events) in
        let go =
          λ (v : net.World). later (sum256 content) content v refl (fewer last content rest free) in
        elim (Bool-cases is_update) [
          | inr e ↦ rw e (go w)
          | inl e ↦ elim (Bool-cases (content == last)) [
            | inl same ↦ rw (e, seeded, same_test last content rest free, same) (go w)
            | inr other ↦
                rw (e, seeded, same_test last content rest free, other)
                  (go (reload net content w).1)
          ]
        ]

    -- Whatever the events are, and whether or not a post succeeds: the reloader posts exactly the updates
    -- that change the content, in their order, if no two of the contents share a digest and the digest of
    -- the last content is recorded.
    pub handle_all-changes :
        (events : List ReloadEvent) (r : ConfigReloader) (last : String) (w : net.World)
        → r.last_hash ≡ sum256 last
        → IsCollisionFree sum256 (last ∷ texts_of (contents_of r.config_map r.key events))
        → (handle_all net sum256 events r w).1
          ≡ reload_each (changes last (contents_of r.config_map r.key events)) w
    unfolding handle_all handle contents_of changes reload_each content_of
    handle_all-changes [] r last w seeded free = refl
    handle_all-changes (event ∷ events) r last w seeded free =
        handle_content-changes (content_of r.config_map r.key event.object) event.is_update events r
          last w
          (λ h prior v e f. handle_all-changes events (record r { last_hash = h }) prior v e f)
          seeded free
