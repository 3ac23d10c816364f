-- ===== src/Routes/Upstream.antt =====
-- The headers of the upstream request: what an annotation sets wins over what the program adds.
use caddy_k8s.Base.{
  String, ◌≡◌, ◌∙◌, ap, Bool, Option, none, some, List, [], ◌∷◌, arith, map_option,
}
use caddy_k8s.Strings.{trim_space, split, cut}
use caddy_k8s.Dict.{
  lookup, merge, NodupKeys, insert-NodupKeys, or_else, lookup-merge, lookup-map_values,
  map_values-NodupKeys,
}
use caddy_k8s.Annotations.Config.{HeaderConfig, no_headers, ProxyConfig}
use caddy_k8s.Annotations.Parse.{
  add_set, add_delete, add_header, add_headers, parse_header_annotation,
}
use caddy_k8s.Routes.Handlers.{singletons, request_headers_of}

add_set-NodupKeys :
    (o : Option (String × String)) (cfg : HeaderConfig)
    → NodupKeys cfg.set
    → NodupKeys (add_set o cfg).set
unfolding add_set
add_set-NodupKeys none cfg h = h
add_set-NodupKeys (some (k, v)) cfg h = insert-NodupKeys (trim_space k) (trim_space v) cfg.set h

add_header-NodupKeys :
    (part : String) (cfg : HeaderConfig) → NodupKeys cfg.set → NodupKeys (add_header part cfg).set
unfolding add_header add_delete
add_header-NodupKeys part cfg h = ground (arith, add_set-NodupKeys (cut b'=' part) cfg h)

add_headers-NodupKeys :
    (parts : List String) (cfg : HeaderConfig)
    → NodupKeys cfg.set
    → NodupKeys (add_headers parts cfg).set
unfolding add_headers
add_headers-NodupKeys [] cfg h = h
add_headers-NodupKeys (part ∷ parts) cfg h =
    add_headers-NodupKeys parts (add_header (trim_space part) cfg)
      (add_header-NodupKeys (trim_space part) cfg h)

parse_header_annotation-NodupKeys : (raw : String) → NodupKeys (parse_header_annotation raw).set
unfolding parse_header_annotation
parse_header_annotation-NodupKeys raw = add_headers-NodupKeys (split b',' raw) no_headers tt

module _ (inject plain_http : Bool) (proxy : ProxyConfig) where
  -- In the map of the headers to set on the upstream request, a header that the `request-headers`
  -- annotation sets has the annotation's value alone, whatever the program would set, and any other key
  -- is as without the annotation. The headers to delete are not in this map.
  pub lookup-request_headers_of :
      (raw k : String)
      → let req = parse_header_annotation raw in
        lookup k (request_headers_of inject proxy plain_http req)
        ≡ or_else
            (map_option (λ v. v ∷ []) (lookup k req.set))
            (lookup k (request_headers_of inject proxy plain_http no_headers))
  unfolding request_headers_of merge
  lookup-request_headers_of raw k =
      let set = (parse_header_annotation raw).set in
      let unique = map_values-NodupKeys (λ v. v ∷ []) set (parse_header_annotation-NodupKeys raw) in
      lookup-merge k (singletons set) _ unique
      ∙ ap (λ o. or_else o (lookup k (request_headers_of inject proxy plain_http no_headers)))
          (lookup-map_values (λ v. v ∷ []) k set)
