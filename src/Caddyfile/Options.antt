-- ===== src/Caddyfile/Options.antt =====
-- The options of the blocks `k8s_ingress` and `k8s_config_reloader`.
use Prim.Native.String.{[], ◌∷◌}
use caddy_k8s.Base.{
  ℕ, ℤ, pos, code, leb, nat_eq, ◌&&◌, ◌||◌, String, ◌<>◌, Bool, Option, none, some, ◌==◌,
  if◌then◌else◌,
}
use caddy_k8s.Strings.{is_blank, is_space}
use caddy_k8s.Strings.Numbers.{parse_int}
use caddy_k8s.Routes.Model.{SecurityConfig}
use caddy_k8s.Reloader.{ConfigReloader}
use caddy_k8s.Caddyfile.{Dispenser, Outcome, done, refused, then_do, loop, with_arg}

pub record RedisConfig : Type 0 where
  pub address : String
  pub password : String
  pub db : ℤ

-- The fields of `App` that the block sets.
pub record Settings : Type 0 where
  pub ingress_class : String
  pub server_name : String
  pub http_server_name : String
  pub admin_api : String
  pub security : SecurityConfig
  pub redis : Option RedisConfig
  pub access_log : Bool
  pub verbose_logs : Bool

unfoldable pub digit_prefix : String → String
digit_prefix [] = ""
digit_prefix (c ∷ s) =
    let rest = digit_prefix s in if leb b'0' (code c) && leb (code c) b'9' then c ∷ rest else ""

-- The longest prefix that reads as a number.
unfoldable pub number_prefix : String → String
number_prefix [] = ""
number_prefix (c ∷ s) =
    if nat_eq (code c) b'-' || nat_eq (code c) b'+'
    then c ∷ digit_prefix s
    else digit_prefix (c ∷ s)

-- `fmt.Sscanf` with the verb `%d`: leading white space is skipped, a line break is an error, and what
-- follows the number is not looked at.
unfoldable pub scan_int : String → Option ℤ
scan_int [] = none
scan_int (c ∷ s) =
    let rest = scan_int s in
    if nat_eq (code c) 10
    then none
    else if is_space (code c)
    then rest
    else parse_int (number_prefix (c ∷ s))

abbrev pub new_redis : RedisConfig
new_redis = record { address = ""; password = ""; db = pos 0 }

module _ (d : Dispenser) where
  open d use {Cursor, val, err}

  unfoldable pub security_option : SecurityConfig → Cursor → Outcome Cursor SecurityConfig
  security_option s c =
      if val c == "waf"
      then with_arg d c (λ x. record s { waf = x == "on" })
      else if val c == "waf_mode"
      then with_arg d c (λ x. record s { waf_mode = x })
      else if val c == "security_headers"
      then with_arg d c (λ x. record s { security_headers = x == "on" })
      else if val c == "inject_real_ip"
      then with_arg d c (λ x. record s { inject_real_ip = x == "on" })
      else refused (err ("unknown security option: " <> val c) c)

  unfoldable pub parse_security_block : ℕ → Settings → Cursor → Outcome Cursor Settings
  parse_security_block fuel a c =
      then_do (loop fuel (d.next_block 1) security_option a.security c)
        (λ s c'. done (record a { security = s }) c')

  abbrev pub with_db : RedisConfig → String → Option ℤ → Cursor → Outcome Cursor RedisConfig
  with_db r text none c = refused (err ("redis db must be an integer: " <> text) c)
  with_db r text (some n) c = done (record r { db = n }) c

  unfoldable pub redis_option : RedisConfig → Cursor → Outcome Cursor RedisConfig
  redis_option r c =
      if val c == "address"
      then with_arg d c (λ x. record r { address = x })
      else if val c == "password"
      then with_arg d c (λ x. record r { password = x })
      else if val c == "db"
      then then_do (with_arg d c (λ x. x)) (λ x c'. with_db r x (scan_int x) c')
      else refused (err ("unknown redis option: " <> val c) c)

  -- The address is required.
  unfoldable pub with_redis : Settings → RedisConfig → Cursor → Outcome Cursor Settings
  with_redis a r c =
      if is_blank r.address
      then refused (err "redis block requires an address" c)
      else done (record a { redis = some r }) c

  unfoldable pub parse_redis_block : ℕ → Settings → Cursor → Outcome Cursor Settings
  parse_redis_block fuel a c =
      then_do (loop fuel (d.next_block 1) redis_option new_redis c) (with_redis a)

  unfoldable pub ingress_option : ℕ → Settings → Cursor → Outcome Cursor Settings
  ingress_option fuel a c =
      if val c == "ingress_class"
      then with_arg d c (λ x. record a { ingress_class = x })
      else if val c == "server_name"
      then with_arg d c (λ x. record a { server_name = x })
      else if val c == "http_server_name"
      then with_arg d c (λ x. record a { http_server_name = x })
      else if val c == "admin_api"
      then with_arg d c (λ x. record a { admin_api = x })
      else if val c == "security"
      then parse_security_block fuel a c
      else if val c == "redis"
      then parse_redis_block fuel a c
      else if val c == "access_log"
      then with_arg d c (λ x. record a { access_log = x == "on" })
      else if val c == "verbose_logs"
      then with_arg d c (λ x. record a { verbose_logs = x == "on" })
      else refused (err ("unknown k8s_ingress option: " <> val c) c)

  -- `UnmarshalCaddyfile` of the application.
  unfoldable pub unmarshal_app : ℕ → Settings → Cursor → Outcome Cursor Settings
  unmarshal_app fuel a c = loop fuel d.next (loop fuel (d.next_block 0) (ingress_option fuel)) a c

  unfoldable pub reloader_option : ConfigReloader → Cursor → Outcome Cursor ConfigReloader
  reloader_option r c =
      if val c == "namespace"
      then with_arg d c (λ x. record r { namespace = x })
      else if val c == "configmap"
      then with_arg d c (λ x. record r { config_map = x })
      else if val c == "key"
      then with_arg d c (λ x. record r { key = x })
      else if val c == "admin_api"
      then with_arg d c (λ x. record r { admin_api = x })
      else refused (err ("unknown k8s_config_reloader option: " <> val c) c)

  -- The name of the ConfigMap is required.
  unfoldable pub with_config_map : ConfigReloader → Cursor → Outcome Cursor ConfigReloader
  with_config_map r c =
      if is_blank r.config_map
      then refused (err "k8s_config_reloader: configmap name is required" c)
      else done r c

  -- `UnmarshalCaddyfile` of the reloader.
  unfoldable pub unmarshal_reloader : ℕ → ConfigReloader → Cursor → Outcome Cursor ConfigReloader
  unmarshal_reloader fuel r c =
      then_do (loop fuel d.next (loop fuel (d.next_block 0) reloader_option) r c) with_config_map
