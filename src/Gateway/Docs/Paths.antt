-- ===== src/Gateway/Docs/Paths.antt =====
-- The documented paths of files-service, and where the gateway proxies a request for one.
use Prim.Native.String.{◌++◌}
use back_end.Prelude.{arith, String, some, [], ◌∷◌, ◌≡◌, refl, ap, join, true, false, string_eq}
use back_end.Prelude.Dict
use back_end.Prelude.Text.{len}
use back_end.Prelude.Prefixes.{clash, starts_with-append, starts_with-clash, eq-clash, swap_prefix}
use back_end.Gateway.Routes.{
  Settings, service_routes, rewrite_routes, is_under, matches, longest, resolve_upstream,
  upstream_path,
}
use back_end.Gateway.Docs.Merger.{strip_legacy, normalize_path}

module _ (rest : String) where
  abbrev upstream_file : String
  upstream_file = join ("/public/files/" ∷ rest ∷ [])

  abbrev gateway_file : String
  gateway_file = join ("/api/files/" ∷ rest ∷ [])

  abbrev tail : String
  tail = rest ++ ""

  normalize-upstream_file : normalize_path "files-service" upstream_file ≡ some gateway_file
  unfolding normalize_path strip_legacy clash
  normalize-upstream_file =
      rw
        (
          starts_with-clash "/public/files/" tail "/files-service" refl,
          starts_with-append "/public/files/" tail "/public/files" refl,
        )
        (ap some (swap_prefix "/public/files" "/api/files" "/" rest))

  is_under-gateway_file : is_under gateway_file "/api/files" ≡ true
  unfolding is_under
  is_under-gateway_file =
      rw (starts_with-append "/api/files/" tail "/api/files/" refl) (ground arith)

  is_under-gateway_other :
      (p : String)
      → clash "/api/files/" p ≡ true
      → clash "/api/files/" (join (p ∷ "/" ∷ [])) ≡ true
      → is_under gateway_file p ≡ false
  unfolding is_under
  is_under-gateway_other p h k =
      rw
        (
          eq-clash "/api/files/" tail p h,
          starts_with-clash "/api/files/" tail (join (p ∷ "/" ∷ [])) k,
        )
        refl

  resolve-gateway_file :
      (s : Settings)
      → resolve_upstream (service_routes s) gateway_file ≡ (some s.files_service_url, "/api/files")
  unfolding resolve_upstream service_routes matches longest len Dict.get clash
  resolve-gateway_file s =
      rw
        (
          is_under-gateway_file,
          is_under-gateway_other "/api/auth" refl refl,
          is_under-gateway_other "/api/tenants" refl refl,
          is_under-gateway_other "/api/resolve" refl refl,
        )
        refl

  upstream_path-gateway_file :
      upstream_path rewrite_routes gateway_file "/api/files" ≡ upstream_file
  unfolding upstream_path rewrite_routes Dict.get
  upstream_path-gateway_file = swap_prefix "/api/files" "/public/files" "/" rest

-- The document's path leads back to the upstream one.
pub record IsRouted (s : Settings) (rest : String) : Type 0 where
  pub documented : normalize_path "files-service" (upstream_file rest) ≡ some (gateway_file rest)
  pub routed :
      resolve_upstream (service_routes s) (gateway_file rest)
      ≡ (some s.files_service_url, "/api/files")
  pub rewritten : upstream_path rewrite_routes (gateway_file rest) "/api/files" ≡ upstream_file rest

-- The documented path of a files-service route `/public/files/…` is `/api/files/…`, for every rest of
-- the path; and a request for that path is proxied to files-service, at the route's own path.
pub documented_path-IsRouted : (s : Settings) (rest : String) → IsRouted s rest
documented_path-IsRouted s rest = record {
  documented = normalize-upstream_file rest;
  routed = resolve-gateway_file rest s;
  rewritten = upstream_path-gateway_file rest;
}
