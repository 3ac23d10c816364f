-- ===== src/Caddyfile/Accepted.antt =====
-- What the parsers of the blocks accept, and that they end.
use caddy_k8s.Base.{
  ℕ, ◌<◌, ◌≤◌, String, ◌≡◌, false, Option, none, some, arith, Bool-cases, inl, inr, ℤ,
}
use caddy_k8s.Strings.{is_blank}
use caddy_k8s.Routes.Model.{SecurityConfig}
use caddy_k8s.Reloader.{ConfigReloader}
use caddy_k8s.Caddyfile.{Dispenser, then_do, with_arg}
use caddy_k8s.Caddyfile.Options.{
  RedisConfig, Settings, scan_int, security_option, parse_security_block, with_db, redis_option,
  with_redis, new_redis, parse_redis_block, ingress_option, unmarshal_app, reloader_option,
  with_config_map, unmarshal_reloader,
}
use caddy_k8s.Caddyfile.Loops.{
  Ends, finished, failed, IsFinite, Ends-then, Ends-loop, Ends-if, Ends-with_arg, Ends-blocks,
}

abbrev pub HasAddress : Option RedisConfig → Type 0
HasAddress none = Unit
HasAddress (some r) = is_blank r.address ≡ false

-- A Redis store that is configured has an address.
abbrev pub IsUsable : Settings → Type 0
IsUsable a = HasAddress a.redis

-- A reloader that is accepted names its ConfigMap.
abbrev pub IsNamed : ConfigReloader → Type 0
IsNamed r = is_blank r.config_map ≡ false

abbrev Any : {S : Type 0} → S → Type 0
Any s = Unit

module _ (d : Dispenser) (f : IsFinite d) where
  open f use {left, next_takes, block_takes}

  with_arg-Any :
      {S : Type 0} (c : d.Cursor) (set : String → S) → Ends left Any (left c) (with_arg d c set)
  with_arg-Any c set = Ends-with_arg d f Any c set (λ x. tt)

  security_option-Ends :
      (s : SecurityConfig) (c : d.Cursor) → Ends left Any (left c) (security_option d s c)
  unfolding security_option
  security_option-Ends s c = search (Ends-if left Any (left c), with_arg-Any c, failed)

  parse_security_block-Ends :
      (fuel : ℕ) (a : Settings) (c : d.Cursor)
      → IsUsable a
      → left c < fuel
      → Ends left IsUsable (left c) (parse_security_block d fuel a c)
  unfolding parse_security_block
  parse_security_block-Ends fuel a c h lt =
      Ends-then left Any (left c) _
        (Ends-loop left Any fuel fuel (d.next_block 1) (security_option d) a.security c
          (block_takes 1) (λ s c' any less. security_option-Ends s c') (omega arith) tt lt)
        (λ s c' any le. finished (record a { security = s }) c' h le)

  with_db-Ends :
      (bound : ℕ) (r : RedisConfig) (text : String) (o : Option ℤ) (c : d.Cursor)
      → left c ≤ bound
      → Ends left Any bound (with_db d r text o c)
  with_db-Ends bound r text none c le = failed _
  with_db-Ends bound r text (some n) c le = finished _ c tt le

  db_option-Ends :
      (r : RedisConfig) (c : d.Cursor)
      → Ends left Any
          (left c)
          (then_do (with_arg d c (λ x. x)) (λ x c'. with_db d r x (scan_int x) c'))
  db_option-Ends r c =
      Ends-then left Any (left c) _ (with_arg-Any c (λ x. x))
        (λ x c' any le. with_db-Ends (left c) r x (scan_int x) c' le)

  redis_option-Ends : (r : RedisConfig) (c : d.Cursor) → Ends left Any (left c) (redis_option d r c)
  unfolding redis_option
  redis_option-Ends r c =
      search (Ends-if left Any (left c), db_option-Ends r c, with_arg-Any c, failed)

  with_redis-Ends :
      (bound : ℕ) (a : Settings) (r : RedisConfig) (c : d.Cursor)
      → left c ≤ bound
      → Ends left IsUsable bound (with_redis d a r c)
  unfolding with_redis
  with_redis-Ends bound a r c le = elim (Bool-cases (is_blank r.address)) [
    | inl e ↦ rw e (failed _)
    | inr e ↦ rw e (finished (record a { redis = some r }) c e le)
  ]

  parse_redis_block-Ends :
      (fuel : ℕ) (a : Settings) (c : d.Cursor)
      → left c < fuel
      → Ends left IsUsable (left c) (parse_redis_block d fuel a c)
  unfolding parse_redis_block
  parse_redis_block-Ends fuel a c lt =
      Ends-then left Any (left c) (with_redis d a)
        (Ends-loop left Any fuel fuel (d.next_block 1) (redis_option d) new_redis c (block_takes 1)
          (λ r c' any less. redis_option-Ends r c') (omega arith) tt lt)
        (λ r c' any le. with_redis-Ends (left c) a r c' le)

  ingress_option-Ends :
      (fuel : ℕ) (a : Settings) (c : d.Cursor)
      → IsUsable a
      → left c < fuel
      → Ends left IsUsable (left c) (ingress_option d fuel a c)
  unfolding ingress_option
  ingress_option-Ends fuel a c h lt =
      let keeps = λ (set : String → Settings) (same : (x : String) → IsUsable (set x)).
        Ends-with_arg d f IsUsable c set same in
      let block = parse_security_block-Ends fuel a c h lt in
      let store = parse_redis_block-Ends fuel a c lt in
      search (Ends-if left IsUsable (left c), block, store, keeps, h, failed) depth 12

  -- With more fuel than tokens, the parser of the block `k8s_ingress` ends: with an error, or with
  -- settings whose Redis store, if there is one, has an address.
  pub unmarshal_app-Ends :
      (fuel : ℕ) (a : Settings) (c : d.Cursor)
      → IsUsable a
      → left c < fuel
      → Ends left IsUsable (left c) (unmarshal_app d fuel a c)
  unfolding unmarshal_app
  unmarshal_app-Ends fuel a c h lt =
      Ends-blocks d f IsUsable fuel (ingress_option d fuel) a c
        (λ s c' h' less. ingress_option-Ends fuel s c' h' less) h lt

  reloader_option-Ends :
      (r : ConfigReloader) (c : d.Cursor) → Ends left Any (left c) (reloader_option d r c)
  unfolding reloader_option
  reloader_option-Ends r c = search (Ends-if left Any (left c), with_arg-Any c, failed)

  with_config_map-Ends :
      (bound : ℕ) (r : ConfigReloader) (c : d.Cursor)
      → left c ≤ bound
      → Ends left IsNamed bound (with_config_map d r c)
  unfolding with_config_map
  with_config_map-Ends bound r c le = elim (Bool-cases (is_blank r.config_map)) [
    | inl e ↦ rw e (failed _)
    | inr e ↦ rw e (finished r c e le)
  ]

  -- With more fuel than tokens, the parser of the block `k8s_config_reloader` ends: with an error, or
  -- with a reloader that names its ConfigMap.
  pub unmarshal_reloader-Ends :
      (fuel : ℕ) (r : ConfigReloader) (c : d.Cursor)
      → left c < fuel
      → Ends left IsNamed (left c) (unmarshal_reloader d fuel r c)
  unfolding unmarshal_reloader
  unmarshal_reloader-Ends fuel r c lt =
      Ends-then left Any (left c) (with_config_map d)
        (Ends-blocks d f Any fuel (reloader_option d) r c
          (λ s c' any less. reloader_option-Ends s c') tt lt)
        (λ s c' any le. with_config_map-Ends (left c) s c' le)
