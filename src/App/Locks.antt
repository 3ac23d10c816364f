-- ===== src/App/Locks.antt =====
-- The mutex of each Ingress key: `ingressMu` in app.go, and the handlers that lock what it gives. A mutex is
-- the number of its allocation; that a locked mutex is not locked again before it is unlocked is what Go
-- says of it.
pub mod Given
pub mod Exclusive
use caddy_k8s.Base.{
  ℕ, suc, ◌+◌, String, ◌≡◌, Bool, true, false, ◌&&◌, Option, none, some, List, [], ◌∷◌, ◌++◌, ◌==◌,
  if◌then◌else◌, nat_eq,
}
use caddy_k8s.Dict.{Dict, empty, lookup, insert}

-- The map `keyMu`, and how many mutexes were allocated.
pub record KeyMutexes : Type 0 where
  pub made : Dict ℕ
  pub next : ℕ

-- `LoadOrStore`: the argument is allocated in any case, and stored where there is none.
abbrev pub load_or_store : Option ℕ → String → KeyMutexes → ℕ × KeyMutexes
load_or_store (some n) key m = (n, record m { next = suc m.next })
load_or_store none key m = (m.next, record { made = insert key m.next m.made; next = suc m.next })

unfoldable pub ingress_mu : String → KeyMutexes → ℕ × KeyMutexes
ingress_mu key m = load_or_store (lookup key m.made) key m

-- A call of a handler: it waits for its mutex, or it is inside.
pub record Handler : Type 0 where
  pub key : String
  pub mutex : ℕ
  pub inside : Bool

pub record Locks : Type 0 where
  pub mutexes : KeyMutexes
  pub handlers : List Handler

abbrev pub no_locks : Locks
no_locks = record { mutexes = record { made = empty; next = 0 }; handlers = [] }

abbrev pub one_if : Bool → ℕ
one_if true = 1
one_if false = 0

-- How many handlers hold a mutex, and how many handle a key.
abbrev pub holders : ℕ → List Handler → ℕ
holders n [] = 0
holders n (h ∷ hs) = one_if (h.inside && nat_eq h.mutex n) + holders n hs

abbrev pub handling : String → List Handler → ℕ
handling key [] = 0
handling key (h ∷ hs) = one_if (h.inside && h.key == key) + handling key hs

-- A call begins, it gets its mutex, or it returns.
pub data Locking : Locks → Locks → Type 0 where
  arrives :
      (key : String) (s : Locks)
      → Locking s (record {
        mutexes = (ingress_mu key s.mutexes).1;
        handlers =
            record { key = key; mutex = (ingress_mu key s.mutexes).0; inside = false } ∷ s.handlers;
      })
  enters :
      (m : KeyMutexes) (front : List Handler) (h : Handler) (back : List Handler)
      → h.inside ≡ false
      → holders h.mutex (front ++ (h ∷ back)) ≡ 0
      → Locking
          (record { mutexes = m; handlers = front ++ (h ∷ back) })
          (record { mutexes = m; handlers = front ++ (record h { inside = true } ∷ back) })
  leaves :
      (m : KeyMutexes) (front : List Handler) (h : Handler) (back : List Handler)
      → h.inside ≡ true
      → Locking
          (record { mutexes = m; handlers = front ++ (h ∷ back) })
          (record { mutexes = m; handlers = front ++ back })

pub data Locked : Locks → Type 0 where
  at_first : Locked no_locks
  after : {s t : Locks} → Locked s → Locking s t → Locked t
