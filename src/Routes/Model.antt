-- ===== src/Routes/Model.antt =====
-- The routes that the program sends to Caddy, and their JSON (the types at the head of routes.go,
-- with the `omitempty` of their tags).
use caddy_k8s.Base.{
  String, Bool, true, false, Option, none, some, List, [], ◌∷◌, ◌++◌, map, if◌then◌else◌, is_empty,
}
use caddy_k8s.Strings.{is_blank}
use caddy_k8s.Dict.{Dict}
use caddy_k8s.Json.{Json, bool, str, array, object, texts}

-- The ranges of a `caddyRemoteIP`.
pub record RemoteIp : Type 0 where
  pub ranges : List String

pub record MatchInner : Type 0 where
  pub remote_ip : Option RemoteIp

pub record CaddyMatch : Type 0 where
  pub host : List String
  pub path : List String
  pub method : List String
  pub headers : Dict (List String)
  pub remote_ip : Option RemoteIp
  pub not : List MatchInner

abbrev pub match_all : CaddyMatch
match_all = record { host = []; path = []; method = []; headers = []; remote_ip = none; not = [] }

pub record CaddyRoute : Type 0 where
  pub id : String
  pub match : List CaddyMatch
  pub handle : List Json
  pub terminal : Bool

-- The global settings of the security middleware (`SecurityConfig` of app.go).
pub record SecurityConfig : Type 0 where
  pub waf : Bool
  pub waf_mode : String
  pub security_headers : Bool
  pub inject_real_ip : Bool

-- A field that is left out when it is empty.
abbrev pub unless {ℓ} : {A : Type ℓ} → Bool → A → List A
unless true a = []
unless false a = a ∷ []

abbrev pub header_map : Dict (List String) → Json
header_map m = object (map (λ (k, vs). (k, texts vs)) m)

marshal_remote_ip : Option RemoteIp → List (String × Json)
marshal_remote_ip none = []
marshal_remote_ip (some r) = ("remote_ip", object (("ranges", texts r.ranges) ∷ [])) ∷ []

marshal_inner : MatchInner → Json
unfolding marshal_remote_ip
marshal_inner m = object (marshal_remote_ip m.remote_ip)

unfoldable pub marshal_match : CaddyMatch → Json
unfolding marshal_inner
marshal_match m = object (
    unless (is_empty m.host) ("host", texts m.host)
    ++ (unless (is_empty m.path) ("path", texts m.path)
        ++ (unless (is_empty m.method) ("method", texts m.method)
            ++ (unless (is_empty m.headers) ("header", header_map m.headers)
                ++ (marshal_remote_ip m.remote_ip
                    ++ unless (is_empty m.not) ("not", array (map marshal_inner m.not)))))))

unfoldable pub marshal_route : CaddyRoute → Json
unfolding marshal_match
marshal_route r = object (
    unless (is_blank r.id) ("@id", str r.id)
    ++ (unless (is_empty r.match) ("match", array (map marshal_match r.match))
        ++ (("handle", array r.handle)
            ∷ (if r.terminal then ("terminal", bool true) ∷ [] else []))))
