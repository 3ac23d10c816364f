-- ===== src/Kube/Connect.antt =====
-- How `Start` in app.go and reloader.go gets a client of the cluster. The configurations and the clients
-- of client-go are parameters.
use caddy_k8s.Base.{String, ◌<>◌, if◌then◌else◌}
use caddy_k8s.Strings.{is_blank}
use caddy_k8s.Admin.Client.{Fetched, found, failure}

-- What the environment gives: the configuration inside a cluster, the variables, the reader of a
-- configuration file, and the constructor of a client.
pub record Environment (Config Client : Type 0) : Type 0 where
  pub in_cluster : Fetched Config
  pub kubeconfig : String
  pub home : String
  pub from_file : String → Fetched Config
  pub new_client : Config → Fetched Client

abbrev pub config_path : String → String → String
config_path kubeconfig home = if is_blank kubeconfig then home <> "/.kube/config" else kubeconfig

module _ {A : Type 0} where
  -- An error gets a text before it.
  abbrev pub described : String → Fetched A → Fetched A
  described text (found a) = found a
  described text (failure e) = failure (text <> e)

module _ {Config Client : Type 0} (env : Environment Config Client) where
  abbrev pub config_or_file : Fetched Config → Fetched Config
  config_or_file (found config) = found config
  config_or_file (failure e) = env.from_file (config_path env.kubeconfig env.home)

  abbrev pub client_of : String → Fetched Config → Fetched Client
  client_of name (failure e) = failure e
  client_of name (found config) =
      described (name <> ": create k8s client: ") (env.new_client config)

  -- The client, or the error that `Start` returns for the module with the name.
  unfoldable pub connect : String → Fetched Client
  connect name =
      client_of name (described (name <> ": build kube config: ") (config_or_file env.in_cluster))
