-- ===== src/Tests/TlsThreads.antt =====
-- The calls of the certificate manager in two orders.
use caddy_k8s.Base.{refl, true, none, some, [], ◌∷◌}
use mathlib.Core.Option.{none-ne-some}
use caddy_k8s.Dict.{lookup, insert, erase}
use caddy_k8s.Kube.{Ingress}
use caddy_k8s.Tls.Certs.{TlsCert, TlsManager, new_tls_manager, track, release, cert_of, entry_cert}
use caddy_k8s.Tls.Tracked.{AreCerts, IsManaged, insert-AreCerts}
use caddy_k8s.Tls.Threads.{
  finished, load, remove, update, load_task, load_then, remove_task, update_task, reload_task,
  holds, answers, replies, another, Runs, stays, goes, begins,
}
use caddy_k8s.Tls.Threads.Managed.{any_call, is_no_removal, Runs-IsManaged}
use caddy_k8s.Tests.Samples.{ingress}
use caddy_k8s.Tests.Tls.{secret, new_tls_manager-IsManaged}

abbrev front : Ingress
front = record ingress { tls = record { hosts = "a" ∷ []; secret_name = "cert" } ∷ [] }

abbrev pair : TlsCert
pair = record {
  secret_namespace = "shop";
  secret_name = "cert";
  hosts = "a" ∷ [];
  cert = "CERT";
  key = "KEY";
}

abbrev holding : TlsManager
holding = record {
  managed_certs = ("shop/cert", pair) ∷ [];
  secret_to_ingress = ("shop/cert", ("shop/front", true) ∷ []) ∷ [];
}

-- The secret is updated while the Ingress is handled.
calm : Runs is_no_removal [] new_tls_manager (finished ∷ finished ∷ []) holding
unfolding load_task load_then update_task track insert lookup entry_cert cert_of
    caddy_k8s.Dict.get_text
calm = begins (load front) refl (
    begins (update secret) refl (
      goes (another _ (holds _ _ _ _)) (
        goes (another _ (answers _ _ _ _ _ (some secret))) (
          goes (another _ (replies _ _ _ _ none))
            (goes (holds _ _ _ _) (goes (another _ (holds _ _ _ _)) (stays _ _)))))))

-- The certificate is left without an Ingress that references it.
abbrev orphaned : TlsManager
orphaned = record { managed_certs = ("shop/cert", pair) ∷ []; secret_to_ingress = [] }

-- The Ingress is removed while the update of its secret is pushed.
race : Runs any_call [] holding (finished ∷ finished ∷ []) orphaned
unfolding remove_task update_task reload_task release insert erase lookup cert_of
    caddy_k8s.Dict.get_text
race = begins (update secret) refl (
    goes (holds _ _ _ _) (
      goes (holds _ _ _ _) (
        begins (remove front) refl (
          goes (holds _ _ _ _) (
            goes (another _ (replies _ _ _ _ none))
              (goes (another _ (holds _ _ _ _)) (stays _ _)))))))

race_test : ¬ IsManaged orphaned
unfolding lookup
race_test h = none-ne-some _ (h.tracked "shop/cert" pair refl).held

holding-AreCerts : AreCerts holding
unfolding insert
holding-AreCerts =
    insert-AreCerts (record { managed_certs = []; secret_to_ingress = holding.secret_to_ingress })
      "shop/cert" pair new_tls_manager-IsManaged.certs
      (record { named = refl; cert = refl; key = refl })

Runs-IsManaged_example : AreCerts orphaned × IsManaged holding
Runs-IsManaged_example = Runs-IsManaged race holding-AreCerts calm new_tls_manager-IsManaged
