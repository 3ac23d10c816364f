-- ===== src/Tests/Caddyfile.antt =====
-- The parsers of the blocks on a small dispenser: words, braces and the ends of lines.
use caddy_k8s.Base.{
  ℕ, suc, ◌≡◌, refl, String, Bool, true, false, none, some, List, [], ◌∷◌, arith, pos,
}
use caddy_k8s.Reloader.{ConfigReloader}
use caddy_k8s.Caddyfile.{Dispenser, Outcome, done, refused}
use caddy_k8s.Caddyfile.Options.{RedisConfig, Settings, scan_int, unmarshal_app, unmarshal_reloader}
use caddy_k8s.Caddyfile.Loops.{Takes, Ends, IsFinite}
use caddy_k8s.Caddyfile.Accepted.{IsUsable, unmarshal_app-Ends}

data Token : Type 0 where
  word : String → Token
  opening closing eol : Token

abbrev Place : Type 0
Place = String × List Token

abbrev advance : List Token → Bool × Place
advance [] = (false, ("", []))
advance (word w ∷ ts) = (true, (w, ts))
advance (opening ∷ ts) = advance ts
advance (closing ∷ ts) = advance ts
advance (eol ∷ ts) = advance ts

abbrev enter : List Token → Bool × Place
enter [] = (false, ("", []))
enter (word w ∷ ts) = (true, (w, ts))
enter (opening ∷ ts) = enter ts
enter (closing ∷ ts) = (false, ("", ts))
enter (eol ∷ ts) = enter ts

abbrev argument : String → List Token → Bool × Place
argument w (word v ∷ ts) = (true, (v, ts))
argument w [] = (false, (w, []))
argument w (opening ∷ ts) = (false, (w, opening ∷ ts))
argument w (closing ∷ ts) = (false, (w, closing ∷ ts))
argument w (eol ∷ ts) = (false, (w, eol ∷ ts))

abbrev dispenser : Dispenser
dispenser = record {
  Cursor = Place;
  next = λ c. advance c.1;
  next_block = λ n c. enter c.1;
  next_arg = λ c. argument c.0 c.1;
  val = λ c. c.0;
  arg_err = λ c. "wrong argument count";
  err = λ text c. text;
}

abbrev count : List Token → ℕ
count [] = 0
count (t ∷ ts) = suc (count ts)

abbrev left : Place → ℕ
left c = count c.1

Takes-more : (m : ℕ) (r : Bool × Place) → Takes left m r → Takes left (suc m) r
Takes-more m (true, c) h = omega arith
Takes-more m (false, c) h = omega arith

advance-Takes : (ts : List Token) → Takes left (count ts) (advance ts)
advance-Takes [] = omega arith
advance-Takes (word w ∷ ts) = omega arith
advance-Takes (opening ∷ ts) = Takes-more (count ts) (advance ts) (advance-Takes ts)
advance-Takes (closing ∷ ts) = Takes-more (count ts) (advance ts) (advance-Takes ts)
advance-Takes (eol ∷ ts) = Takes-more (count ts) (advance ts) (advance-Takes ts)

enter-Takes : (ts : List Token) → Takes left (count ts) (enter ts)
enter-Takes [] = omega arith
enter-Takes (word w ∷ ts) = omega arith
enter-Takes (opening ∷ ts) = Takes-more (count ts) (enter ts) (enter-Takes ts)
enter-Takes (closing ∷ ts) = omega arith
enter-Takes (eol ∷ ts) = Takes-more (count ts) (enter ts) (enter-Takes ts)

argument-Takes : (w : String) (ts : List Token) → Takes left (count ts) (argument w ts)
argument-Takes w [] = omega arith
argument-Takes w (word v ∷ ts) = omega arith
argument-Takes w (opening ∷ ts) = omega arith
argument-Takes w (closing ∷ ts) = omega arith
argument-Takes w (eol ∷ ts) = omega arith

dispenser-IsFinite : IsFinite dispenser
dispenser-IsFinite = record {
  left = left;
  next_takes = λ c. advance-Takes c.1;
  block_takes = λ n c. enter-Takes c.1;
  arg_takes = λ c. argument-Takes c.0 c.1;
}

abbrev unset : Settings
unset = record {
  ingress_class = "";
  server_name = "";
  http_server_name = "";
  admin_api = "";
  security = record {
    waf = false;
    waf_mode = "";
    security_headers = false;
    inject_real_ip = false;
  };
  redis = none;
  access_log = false;
  verbose_logs = false;
}

abbrev block : Place
block = (
  "",
  word "k8s_ingress"
      ∷ opening
      ∷ eol
      ∷ word "ingress_class"
      ∷ word "caddy"
      ∷ eol
      ∷ word "security"
      ∷ opening
      ∷ eol
      ∷ word "waf"
      ∷ word "on"
      ∷ eol
      ∷ closing
      ∷ eol
      ∷ word "redis"
      ∷ opening
      ∷ eol
      ∷ word "address"
      ∷ word "redis:6379"
      ∷ eol
      ∷ word "db"
      ∷ word "5abc"
      ∷ eol
      ∷ closing
      ∷ eol
      ∷ word "access_log"
      ∷ word "on"
      ∷ eol
      ∷ closing
      ∷ [],
)

unmarshal_app_test :
    unmarshal_app dispenser 40 unset block
    ≡ done
        (record {
          ingress_class = "caddy";
          server_name = "";
          http_server_name = "";
          admin_api = "";
          security = record {
            waf = true;
            waf_mode = "";
            security_headers = false;
            inject_real_ip = false;
          };
          redis = some (record { address = "redis:6379"; password = ""; db = pos 5 });
          access_log = true;
          verbose_logs = false;
        })
        ("", [])
unfolding unmarshal_app caddy_k8s.Caddyfile.loop caddy_k8s.Caddyfile.Options.ingress_option
    caddy_k8s.Caddyfile.with_arg caddy_k8s.Caddyfile.Options.parse_security_block
    caddy_k8s.Caddyfile.Options.security_option caddy_k8s.Caddyfile.Options.parse_redis_block
    caddy_k8s.Caddyfile.Options.redis_option scan_int caddy_k8s.Strings.is_space
    caddy_k8s.Strings.Numbers.parse_int caddy_k8s.Caddyfile.Options.number_prefix
    caddy_k8s.Caddyfile.Options.digit_prefix caddy_k8s.Caddyfile.Options.with_redis
unmarshal_app_test = refl

unmarshal_app-Ends_example : Ends left IsUsable 29 (unmarshal_app dispenser 40 unset block)
unfolding dispenser-IsFinite
unmarshal_app-Ends_example =
    unmarshal_app-Ends dispenser dispenser-IsFinite 40 unset block tt (omega arith)

abbrev reloader : ConfigReloader
reloader = record { namespace = ""; config_map = ""; key = ""; admin_api = ""; last_hash = "" }

abbrev reloader_block : Place
reloader_block = (
  "",
  word "k8s_config_reloader" ∷ opening ∷ eol ∷ word "key" ∷ word "Caddyfile" ∷ eol ∷ closing ∷ [],
)

unmarshal_reloader_test :
    unmarshal_reloader dispenser 10 reloader reloader_block
    ≡ refused "k8s_config_reloader: configmap name is required"
unfolding unmarshal_reloader caddy_k8s.Caddyfile.loop caddy_k8s.Caddyfile.Options.reloader_option
    caddy_k8s.Caddyfile.with_arg caddy_k8s.Caddyfile.Options.with_config_map
unmarshal_reloader_test = refl
