-- ===== src/Store/RedisLaws.antt =====
-- The Redis store over a client that behaves as Redis documents it.
use text.Mathlib.TextLemmas.{nil-append, cons-append}
use Prim.Native.String.{[], ◌∷◌}
use caddy_k8s.Base.{
  String, ◌<>◌, ◌≡◌, refl, ◌∙◌, Bool, true, false, Option, none, some, List, [], ◌∷◌, map, ◌==◌,
  eq_iff, arith, if◌then◌else◌, ◌>>=◌, Bool-cases, Option-cases, inl, inr,
}
use caddy_k8s.Dict.{Dict, lookup, or_else, lookup-insert}
use caddy_k8s.Hosts.{elem}
use caddy_k8s.Store.Interface.{IsFaithful}
use caddy_k8s.Store.Redis.{
  RedisClient, drop_prefix, redis_save, redis_remove, entry_of, read_keys, redis_load_all,
  redis_store,
}

pub drop_prefix-append : (p s : String) → drop_prefix p (p <> s) ≡ s
unfolding drop_prefix
drop_prefix-append [] s = nil-append s
drop_prefix-append (c ∷ p) s = rw cons-append (drop_prefix-append p s)

abbrev pub is_some {ℓ} : {A : Type ℓ} → Option A → Bool
is_some none = false
is_some (some a) = true

module _ (client : RedisClient) (prefix : String) where
  -- A database without errors: `value` is what a key holds, `KEYS` finds the keys under the prefix, and
  -- a list of ids is read back from its JSON text.
  pub record IsRedis : Type 0 where
    pub value : client.Db → String → Option String
    pub set_succeeds : (k v : String) (db : client.Db) → (client.set k v db).0 ≡ none
    pub value-set :
        (k v j : String) (db : client.Db)
        → value (client.set (prefix <> k) v db).1 (prefix <> j)
          ≡ (if k == j then some v else value db (prefix <> j))
    pub del_succeeds : (k : String) (db : client.Db) → (client.del k db).0 ≡ none
    pub value-del :
        (k j : String) (db : client.Db)
        → value (client.del (prefix <> k) db).1 (prefix <> j)
          ≡ (if k == j then none else value db (prefix <> j))
    pub get_value : (k : String) (db : client.Db) → client.get k db ≡ value db k
    pub keys_found :
        (db : client.Db)
        → (rs : List String) × (client.keys (prefix <> "*") db ≡ some (map (λ r. prefix <> r) rs))
          × ((j : String) → elem j rs ≡ is_some (value db (prefix <> j)))
    pub read_back : (ids : List String) → client.unmarshal (client.marshal ids) ≡ some ids

  module _ (redis : IsRedis) where
    open redis use {
      value, set_succeeds, value-set, del_succeeds, value-del, get_value, keys_found, read_back,
    }

    -- The ids that are kept for an Ingress, if they can be read.
    abbrev pub ids_at : client.Db → String → Option (List String)
    ids_at db j = value db (prefix <> j) >>= client.unmarshal

    lookup-entry_of :
        (r j : String) (o : Option (List String)) (out : Dict (List String))
        → lookup j (entry_of client prefix (prefix <> r) o out)
          ≡ (if r == j then or_else o (lookup j out) else lookup j out)
    lookup-entry_of r j none out = ground arith
    lookup-entry_of r j (some ids) out =
        rw (drop_prefix-append prefix r) (lookup-insert r j ids out)

    merged :
        (r j : String) (rs : List String) (db : client.Db) (o : Option (List String))
        → (if elem j rs
            then or_else (ids_at db j) (if r == j then or_else (ids_at db r) o else o)
            else (if r == j then or_else (ids_at db r) o else o))
          ≡ (if elem j (r ∷ rs) then or_else (ids_at db j) o else o)
    merged r j rs db o = elim (Bool-cases (r == j)) [
      | inl same ↦
          rw (same, (eq_iff r j).0 same)
            (elim (Option-cases (ids_at db j)) [
              | inl e ↦ rw e (ground arith)
              | inr (ids, e) ↦ rw e (ground arith)
            ])
      | inr other ↦ rw other refl
    ]

    lookup-read_keys :
        (rs : List String) (db : client.Db) (out : Dict (List String)) (j : String)
        → lookup j (read_keys client prefix (map (λ r. prefix <> r) rs) db out)
          ≡ (if elem j rs then or_else (ids_at db j) (lookup j out) else lookup j out)
    unfolding read_keys
    lookup-read_keys [] db out j = refl
    lookup-read_keys (r ∷ rs) db out j =
        let o = client.get (prefix <> r) db >>= client.unmarshal in
        lookup-read_keys rs db (entry_of client prefix (prefix <> r) o out) j
        ∙ (rw (lookup-entry_of r j o out, get_value (prefix <> r) db)
            (merged r j rs db (lookup j out)))

    present :
        (j : String) (b : Bool) (o : Option String)
        → b ≡ is_some o
        → (if b then or_else (o >>= client.unmarshal) none else none) ≡ (o >>= client.unmarshal)
    present j b none e = rw e refl
    present j b (some t) e = rw e (or_else_none (client.unmarshal t))
      where
        or_else_none : (x : Option (List String)) → or_else x none ≡ x
        or_else_none none = refl
        or_else_none (some ids) = refl

    -- Over such a client, the Redis store keeps what it is given, for every Ingress key.
    pub redis_store-IsFaithful : IsFaithful (redis_store client prefix) ids_at
    unfolding redis_save redis_remove redis_load_all lookup
    redis_store-IsFaithful = record {
      save_succeeds = λ k ids db. set_succeeds (prefix <> k) (client.marshal ids) db;
      view-save = λ k j ids db.
          rw (value-set k (client.marshal ids) j db) (elim (Bool-cases (k == j)) [
            | inl same ↦ rw same (read_back ids)
            | inr other ↦ rw other refl
          ]);
      remove_succeeds = λ k db. del_succeeds (prefix <> k) db;
      view-remove = λ k j db.
          rw (value-del k j db)
            (elim (Bool-cases (k == j)) [ inl same ↦ rw same refl | inr other ↦ rw other refl ]);
      load_all_complete = λ db.
          let (rs, listed, exact) = keys_found db in
          (
            read_keys client prefix (map (λ r. prefix <> r) rs) db [],
            rw listed refl,
            λ j.
                lookup-read_keys rs db [] j
                ∙ present j (elem j rs) (value db (prefix <> j)) (exact j),
          );
      load_all_keeps = λ db j. refl;
    }
