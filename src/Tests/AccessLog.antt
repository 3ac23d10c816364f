-- ===== src/Tests/AccessLog.antt =====
-- The theorems on access logs, at an admin API that keeps the last text sent to each path.
use text.Mathlib.TextLemmas.{append_cancel_left, append_cancel_right}
use caddy_k8s.Base.{
  String, ◌≡◌, refl, ap, ◌∙◌, Option, none, some, [], ◌∷◌, map, ◌==◌, eq_iff, arith, inl,
  if◌then◌else◌,
}
use caddy_k8s.Hosts
use caddy_k8s.Dict.{Dict, lookup, insert, erase, lookup-insert}
use caddy_k8s.Hosts.{elem, distinct}
use caddy_k8s.Admin.Client.{answer, failure, Net}
use caddy_k8s.AccessLog.Manager.{AccessLogManager, Visit, skip_path, skip_list, skip, unskip}
use caddy_k8s.AccessLog.Skipped.{IsVisit, SkipServer, IsUpdated, skip-IsUpdated}

abbrev put_text : Option String → String → Dict String → Dict String
put_text none path w = w
put_text (some b) path w = insert path b w

abbrev text_of : Option String → String
text_of none = ""
text_of (some b) = b

abbrev log_api : Net
log_api = record {
  World = Dict String;
  send = λ m path body w. (answer 200 "", put_text body path w);
  wait = λ n w. (none, w);
  marshal = λ j. "[]";
  unmarshal = λ s. none;
  unmarshal_servers = λ s. failure "unexpected end of JSON input";
}

skip_path-injective : (s k : String) → skip_path s ≡ skip_path k → s ≡ k
skip_path-injective s k e =
    append_cancel_right s k "/logs/skip_hosts"
      (append_cancel_left "/config/apps/http/servers/" _ _ e)

pub patch_sets :
    (srv body k : String) (w : Dict String)
    → text_of (lookup (skip_path k) (insert (skip_path srv) body w))
      ≡ (if srv == k then body else text_of (lookup (skip_path k) w))
patch_sets srv body k w =
    ap text_of (lookup-insert (skip_path srv) (skip_path k) body w)
    ∙ ground (
      arith,
      eq_iff srv k,
      eq_iff (skip_path srv) (skip_path k),
      skip_path-injective srv k,
      ap {A = String} skip_path {x = srv} {y = k},
    )

abbrev log_server : SkipServer log_api
log_server = record {
  held = λ w srv. text_of (lookup (skip_path srv) w);
  patch_succeeds = λ srv body w. refl;
  patch_sets = patch_sets;
  marshal_inked = λ j. refl;
}

abbrev in_order : Visit
in_order m = map (λ (k, hosts). hosts) m

abbrev manager : AccessLogManager
manager = record {
  server_name = "srv0";
  http_server_name = "srv1";
  disabled = ("shop/front", "a" ∷ "b" ∷ []) ∷ ("shop/back", "b" ∷ []) ∷ [];
  last_skip = "";
}

in_order-IsVisit : IsVisit in_order
in_order-IsVisit = record { meets = λ p m. refl }

skip_list_test : skip_list in_order manager ≡ "a" ∷ "b" ∷ []
unfolding skip_list Hosts.unique Hosts.collect
skip_list_test = refl

skip-IsUpdated_example :
    IsUpdated log_api log_server in_order
      (record manager { disabled = insert "shop/new" ("c" ∷ []) manager.disabled })
      (skip log_api in_order "shop/new" ("c" ∷ []) manager [])
    × IsUpdated log_api log_server in_order
        (record manager { disabled = erase "shop/new" manager.disabled })
        (unskip log_api in_order "shop/new" manager [])
skip-IsUpdated_example =
    skip-IsUpdated log_api log_server in_order "shop/new" ("c" ∷ []) manager [] (inl refl)
