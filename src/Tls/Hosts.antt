-- ===== src/Tls/Hosts.antt =====
-- `ManagedHosts`: the hosts of the certificates that are loaded, each once, in the order of a map visit.
use caddy_k8s.Base.{String, ◌≡◌, refl, ◌∙◌, List, [], ◌∷◌, ◌++◌, any, arith}
use caddy_k8s.Dict.{Dict}
use caddy_k8s.Hosts.{elem, unique, elem-append, elem-unique}
use caddy_k8s.Tls.Certs.{TlsCert, TlsManager}

cert_hosts : Dict TlsCert → List String
cert_hosts [] = []
cert_hosts ((key, cert) ∷ rest) = cert.hosts ++ cert_hosts rest

managed_hosts : (List String → List String) → TlsManager → List String
unfolding cert_hosts
managed_hosts visit m = visit (unique (cert_hosts m.managed_certs))

elem-cert_hosts :
    (h : String) (certs : Dict TlsCert)
    → elem h (cert_hosts certs) ≡ any (λ (key, cert). elem h cert.hosts) certs
unfolding cert_hosts
elem-cert_hosts h [] = refl
elem-cert_hosts h ((key, cert) ∷ rest) =
    ground (arith, elem-append h cert.hosts (cert_hosts rest), elem-cert_hosts h rest)

-- A host is managed where a loaded certificate is for it, if the visit meets each host.
elem-managed_hosts :
    (visit : List String → List String) (h : String) (m : TlsManager)
    → ((hs : List String) → elem h (visit hs) ≡ elem h hs)
    → elem h (managed_hosts visit m) ≡ any (λ (key, cert). elem h cert.hosts) m.managed_certs
unfolding managed_hosts
elem-managed_hosts visit h m meets =
    meets (unique (cert_hosts m.managed_certs))
    ∙ (elem-unique h (cert_hosts m.managed_certs) ∙ elem-cert_hosts h m.managed_certs)
