-- ===== src/Tls/Tracked.antt =====
-- The invariant of the certificate manager of tls.go, and the changes that are made under its
-- mutex.
use mathlib.Core.Path.{subst}
use mathlib.Core.Option.{some-injective}
use caddy_k8s.Base.{
  String, ◌≡◌, refl, sym, ◌∙◌, Bool, true, false, Option, none, some, List, [], ◌∷◌, ◌==◌, eq_iff,
  arith, is_empty, Bool-cases, Option-cases, inl, inr, AllSome,
}
use caddy_k8s.Dict.{Dict, lookup, insert, erase, lookup-insert, lookup-erase}
use caddy_k8s.Kube.{Ingress, IngressTls, Secret}
use caddy_k8s.Strings.{is_blank}
use caddy_k8s.Tls.Certs.{
  TlsCert, TlsManager, object_key, or_new, track, cert_of, entry_cert, release,
}

pub record IsTracked (m : TlsManager) (k : String) : Type 0 where
  pub refs : Dict Bool
  pub held : lookup k m.secret_to_ingress ≡ some refs
  pub some_ref : is_empty refs ≡ false

pub record IsCertOf (k : String) (c : TlsCert) : Type 0 where
  pub named : object_key c.secret_namespace c.secret_name ≡ k
  pub cert : is_blank c.cert ≡ false
  pub key : is_blank c.key ≡ false

-- Each certificate has both parts and stands under its secret's key.
abbrev pub AreCerts : TlsManager → Type 0
AreCerts m = (k : String) (c : TlsCert) → lookup k m.managed_certs ≡ some c → IsCertOf k c

pub record IsManaged (m : TlsManager) : Type 0 where
  pub tracked : (k : String) (c : TlsCert) → lookup k m.managed_certs ≡ some c → IsTracked m k
  pub certs : AreCerts m

is_empty-insert : {V : Type 0} (k : String) (v : V) (m : Dict V) → is_empty (insert k v m) ≡ false
unfolding insert
is_empty-insert k v [] = refl
is_empty-insert k v ((j, w) ∷ m) = ground arith

-- A set of references that is not empty is put under a key.
insert-IsTracked :
    (m : TlsManager) (j k : String) (refs : Dict Bool)
    → is_empty refs ≡ false
    → IsTracked m k
    → IsTracked (record m { secret_to_ingress = insert j refs m.secret_to_ingress }) k
insert-IsTracked m j k refs inked t = elim (Bool-cases (j == k)) [
  | inl same ↦ record {
    refs = refs;
    held = lookup-insert j k refs _ ∙ rw same refl;
    some_ref = inked;
  }
  | inr other ↦ record {
    refs = t.refs;
    held = lookup-insert j k refs _ ∙ rw other t.held;
    some_ref = t.some_ref;
  }
]

pub track-IsTracked : (m : TlsManager) (j i : String) → IsTracked (track j i m) j
unfolding track
track-IsTracked m j i = record {
  refs = insert i true (or_new (lookup j m.secret_to_ingress));
  held = lookup-insert j j _ _ ∙ ground (arith, eq_iff j j);
  some_ref = is_empty-insert i true _;
}

-- A key that is referenced stays so when another is tracked.
pub track-stays : (m : TlsManager) (j i k : String) → IsTracked m k → IsTracked (track j i m) k
unfolding track
track-stays m j i k t = insert-IsTracked m j k _ (is_empty-insert i true _) t

pub track-AreCerts : (m : TlsManager) (j i : String) → AreCerts m → AreCerts (track j i m)
unfolding track
track-AreCerts m j i h = h

pub track-IsManaged : (m : TlsManager) (j i : String) → IsManaged m → IsManaged (track j i m)
unfolding track
track-IsManaged m j i h = record {
  tracked = λ k c e. insert-IsTracked m j k _ (is_empty-insert i true _) (h.tracked k c e);
  certs = h.certs;
}

pub cert_of-IsCertOf :
    (namespace name : String) (hosts : List String) (secret : Secret)
    → AllSome (IsCertOf (object_key namespace name)) (cert_of namespace name hosts secret)
unfolding cert_of
cert_of-IsCertOf namespace name hosts secret = ground arith

pub entry_cert-IsCertOf :
    (ing : Ingress) (tls : IngressTls) (o : Option Secret)
    → AllSome (IsCertOf (object_key ing.namespace tls.secret_name)) (entry_cert ing tls o)
unfolding entry_cert
entry_cert-IsCertOf ing tls none = tt
entry_cert-IsCertOf ing tls (some secret) =
    elim (Bool-cases (secret.secret_type == "kubernetes.io/tls")) [
      | inl e ↦ rw e (cert_of-IsCertOf ing.namespace tls.secret_name tls.hosts secret)
      | inr e ↦ rw e tt
    ]

pub insert-AreCerts :
    (m : TlsManager) (j : String) (cert : TlsCert)
    → AreCerts m
    → IsCertOf j cert
    → AreCerts (record m { managed_certs = insert j cert m.managed_certs })
insert-AreCerts m j cert h ok k c e = elim (Bool-cases (j == k)) [
  | inl same ↦
      let found =
        some-injective _ _ (rw same at (sym (lookup-insert j k cert m.managed_certs) ∙ e)) in
      subst (λ l. IsCertOf l c) ((eq_iff j k).0 same) (subst (IsCertOf j) found ok)
  | inr other ↦ h k c (rw other at (sym (lookup-insert j k cert m.managed_certs) ∙ e))
]

pub insert-IsManaged :
    (m : TlsManager) (j : String) (cert : TlsCert)
    → IsManaged m
    → IsTracked m j
    → IsCertOf j cert
    → IsManaged (record m { managed_certs = insert j cert m.managed_certs })
insert-IsManaged m j cert h t ok = record {
  tracked = λ k c e. elim (Bool-cases (j == k)) [
    | inl same ↦
        let moved : IsTracked m k = subst (IsTracked m) ((eq_iff j k).0 same) t in
        record { refs = moved.refs; held = moved.held; some_ref = moved.some_ref }
    | inr other ↦
        let old = h.tracked k c (rw other at (sym (lookup-insert j k cert m.managed_certs) ∙ e)) in
        record { refs = old.refs; held = old.held; some_ref = old.some_ref }
  ];
  certs = insert-AreCerts m j cert h.certs ok;
}

lookup-erase-some :
    {V : Type 0} (j k : String) (m : Dict V) (v : V)
    → lookup k (erase j m) ≡ some v
    → ((j == k) ≡ false) × (lookup k m ≡ some v)
lookup-erase-some j k m v e = ground (arith, lookup-erase j k m)

erase-IsManaged :
    (m : TlsManager) (j : String)
    → IsManaged m
    → IsManaged (record {
      managed_certs = erase j m.managed_certs;
      secret_to_ingress = erase j m.secret_to_ingress;
    })
erase-IsManaged m j h = record {
  tracked = λ k c e.
      let (other, old) = lookup-erase-some j k m.managed_certs c e in
      let t = h.tracked k c old in
      record {
        refs = t.refs;
        held = lookup-erase j k m.secret_to_ingress ∙ rw other t.held;
        some_ref = t.some_ref;
      };
  certs = λ k c e. h.certs k c (lookup-erase-some j k m.managed_certs c e).1;
}

pub release-AreCerts : (j i : String) (m : TlsManager) → AreCerts m → AreCerts (release j i m)
unfolding release
release-AreCerts j i m h = elim (Option-cases (lookup j m.secret_to_ingress)) [
  | inl e ↦ rw (release, e) h
  | inr (refs, e) ↦ elim (Bool-cases (is_empty (erase i refs))) [
    | inl last ↦
        rw (release, e, last) (λ k c d. h k c (lookup-erase-some j k m.managed_certs c d).1)
    | inr left ↦ rw (release, e, left) h
  ]
]

pub release-IsManaged : (j i : String) (m : TlsManager) → IsManaged m → IsManaged (release j i m)
unfolding release
release-IsManaged j i m h = elim (Option-cases (lookup j m.secret_to_ingress)) [
  | inl e ↦ rw (release, e) h
  | inr (refs, e) ↦ elim (Bool-cases (is_empty (erase i refs))) [
    | inl last ↦ rw (release, e, last) (erase-IsManaged m j h)
    | inr left ↦
        rw (release, e, left)
          (record {
            tracked = λ k c d. insert-IsTracked m j k _ left (h.tracked k c d);
            certs = h.certs;
          })
  ]
]
