-- ===== src/Gateway/Routes.antt =====
-- services/api-gateway/app/config.py, and the routing functions of controller.py.
use back_end.Prelude.{
  ℕ, String, Bool, Option, none, some, List, [], ◌∷◌, ◌==◌, string_eq, if◌then◌else◌, ◌||◌, leb,
  join,
}
use back_end.Prelude.Dict
use back_end.Prelude.Dict.{Dict}
use back_end.Prelude.Text.{len, drop, starts_with}

pub record Settings : Type 0 where
  pub service_name : String
  pub auth_service_url : String
  pub tenant_service_url : String
  pub files_service_url : String
  pub secret_key : String
  pub inter_service_secret : String
  pub rate_limit_per_minute : ℕ

unfoldable pub service_routes : Settings → Dict String String
service_routes s =
    ("/api/auth", s.auth_service_url)
    ∷ ("/api/tenants", s.tenant_service_url)
    ∷ ("/api/files", s.files_service_url)
    ∷ ("/api/resolve", s.tenant_service_url)
    ∷ []

unfoldable pub rewrite_routes : Dict String String
rewrite_routes = ("/api/files", "/public/files") ∷ []

unfoldable pub upstreams : Settings → Dict String String
upstreams s =
    ("auth-service", s.auth_service_url)
    ∷ ("tenant-service", s.tenant_service_url)
    ∷ ("files-service", s.files_service_url)
    ∷ []

-- `path == p or path.startswith(p + "/")`
unfoldable pub is_under : String → String → Bool
unfolding starts_with
is_under path p = path == p || starts_with path (join (p ∷ "/" ∷ []))

-- The keys that the list comprehension keeps.
unfoldable pub matches : String → Dict String String → List String
unfolding is_under
matches path [] = []
matches path ((p, url) ∷ routes) =
    let rest = matches path routes in if is_under path p then p ∷ rest else rest

-- `max(…, key=len)` of a list that starts with `best`: the first of the longest.
unfoldable pub longest : String → List String → String
unfolding len
longest best [] = best
longest best (p ∷ ps) = longest (if leb (len p) (len best) then best else p) ps

abbrev pub resolve_among : Dict String String → List String → Option String × String
resolve_among routes [] = (none, "")
resolve_among routes (p ∷ ps) = (Dict.get (longest p ps) routes, longest p ps)

-- `_resolve_upstream`
unfoldable pub resolve_upstream : Dict String String → String → Option String × String
unfolding matches longest
resolve_upstream routes path = resolve_among routes (matches path routes)

abbrev pub rewrite : Option String → String → String → String
rewrite none path prefix = path
rewrite (some upstream_prefix) path prefix = join (upstream_prefix ∷ drop (len prefix) path ∷ [])

-- `_upstream_path`
unfoldable pub upstream_path : Dict String String → String → String → String
unfolding len drop
upstream_path routes path gateway_prefix =
    rewrite (Dict.get gateway_prefix routes) path gateway_prefix
