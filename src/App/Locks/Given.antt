-- ===== src/App/Locks/Given.antt =====
-- The mutexes that `ingressMu` of app.go gives out for the keys.
use caddy_k8s.Base.{
  ℕ, ◌<◌, String, ◌≡◌, sym, ap, ◌∙◌, Option, none, some, ◌==◌, eq_iff, arith, Bool-cases, inl, inr,
  ◌⊎◌,
}
use mathlib.Core.Option.{some-injective, none-ne-some}
use caddy_k8s.Dict.{Dict, lookup, insert, lookup-insert}
use caddy_k8s.App.Locks.{KeyMutexes, load_or_store}

-- Each mutex of the map is one that was allocated, for one key.
pub record IsMade (m : KeyMutexes) : Type 0 where
  pub below : (k : String) (n : ℕ) → lookup k m.made ≡ some n → n < m.next
  pub apart : (j k : String) (n : ℕ) → lookup j m.made ≡ some n → lookup k m.made ≡ some n → j ≡ k

-- What is read after an insertion is what was inserted, or what was there.
found_after :
    (key k : String) (n i : ℕ) (made : Dict ℕ)
    → lookup k (insert key n made) ≡ some i
    → ((key ≡ k) × (n ≡ i)) ⊎ (lookup k made ≡ some i)
found_after key k n i made f = elim (Bool-cases (key == k)) [
  | inl same ↦ inl (
    (eq_iff key k).0 same,
    some-injective n i (rw same at (sym (lookup-insert key k n made) ∙ f)),
  )
  | inr other ↦ inr (rw other at (sym (lookup-insert key k n made) ∙ f))
]

-- The map after a call of `ingressMu`: what was there stays, and the key has the mutex that was given.
pub record IsGiven (key : String) (m : KeyMutexes) (out : ℕ × KeyMutexes) : Type 0 where
  pub made : IsMade out.1
  pub given : lookup key out.1.made ≡ some out.0
  pub keeps : (k : String) (n : ℕ) → lookup k m.made ≡ some n → lookup k out.1.made ≡ some n

pub load_or_store-IsGiven :
    (o : Option ℕ) (key : String) (m : KeyMutexes)
    → lookup key m.made ≡ o
    → IsMade m
    → IsGiven key m (load_or_store o key m)
load_or_store-IsGiven (some n) key m e h = record {
  made = record { below = λ k i f. omega (arith, h.below k i f); apart = h.apart };
  given = e;
  keeps = λ k i f. f;
}
load_or_store-IsGiven none key m e h = record {
  made = record {
    below = λ k i f. ground (arith, f, h.below k i, lookup-insert key k m.next m.made);
    apart = λ j k i f g. elim (found_after key j m.next i m.made f) [
      | inl (ej, ei) ↦ elim (found_after key k m.next i m.made g) [
        | inl (ek, _) ↦ sym ej ∙ ek
        | inr old ↦ absurd (omega (arith, h.below k i old, ei))
      ]
      | inr old_j ↦ elim (found_after key k m.next i m.made g) [
        | inl (ek, ei) ↦ absurd (omega (arith, h.below j i old_j, ei))
        | inr old_k ↦ h.apart j k i old_j old_k
      ]
    ];
  };
  given = lookup-insert key key m.next m.made ∙ ground (arith, eq_iff key key);
  keeps = λ k i f. elim (Bool-cases (key == k)) [
    | inl same ↦
        absurd (none-ne-some i (sym e ∙ (ap (λ x. lookup x m.made) ((eq_iff key k).0 same) ∙ f)))
    | inr other ↦ lookup-insert key k m.next m.made ∙ rw other f
  ];
}
