-- ===== src/Tests/Locks.antt =====
-- Two calls for one Ingress and one for another: one of the first two is inside.
use caddy_k8s.Base.{◌≤◌, String, ◌≡◌, refl, true, false, List, [], ◌∷◌, ◌++◌}
use caddy_k8s.Dict.{lookup, insert}
use caddy_k8s.App.Locks.{
  Handler, Locks, ingress_mu, holders, handling, arrives, enters, Locked, at_first, after,
}
use caddy_k8s.App.Locks.Exclusive.{Locked-handling}

abbrev other : Handler
other = record { key = "shop/back"; mutex = 1; inside = false }

abbrev late : Handler
late = record { key = "shop/front"; mutex = 0; inside = false }

abbrev early : Handler
early = record { key = "shop/front"; mutex = 0; inside = true }

abbrev busy : Locks
busy = record {
  mutexes = record { made = ("shop/front", 0) ∷ ("shop/back", 1) ∷ []; next = 3 };
  handlers = late ∷ other ∷ early ∷ [];
}

busy-Locked : Locked busy
unfolding ingress_mu lookup insert
busy-Locked =
    after
      (after (after (after at_first (arrives "shop/front" _)) (arrives "shop/back" _))
        (arrives "shop/front" _))
      (enters _ (late ∷ other ∷ []) (record early { inside = false }) [] refl refl)

Locked-handling_example :
    ((key : String) → handling key busy.handlers ≤ 1)
    × ((front : List Handler) (h : Handler) (back : List Handler)
        → busy.handlers ≡ front ++ (h ∷ back)
        → handling h.key busy.handlers ≡ 0
        → holders h.mutex busy.handlers ≡ 0)
Locked-handling_example = Locked-handling busy-Locked
