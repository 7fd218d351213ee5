-- ===== src/Tenant/Domains/Cloudflare.antt =====
-- `CloudflareClient` of services/tenant-service/app/_archived/cloudflare_domains/cloudflare.py. An answer of the API is a
-- function of the draw; the texts of exceptions are not modelled.
use back_end.Prelude.{
  ℕ, String, Bool, true, false, Option, none, some, [], ◌∷◌, ◌==◌, string_eq, if◌then◌else◌, ◌&&◌,
  not, join,
}
use back_end.Prelude.Exec.{Exec, raised, raise, pure, ◌>>=◌, ◌>>◌, catch}
use back_end.Shared.Json.{Json, bool, num, str, obj, Fields, nil, field, get, get_or, is_truthy}
use back_end.Shared.Events.{draw}
use back_end.Tenant.Domains.{Cloud, Domains}

module _ (c : Cloud) where
  -- `is_configured`
  abbrev pub is_configured : Bool
  is_configured = not (c.api_token == "") && not (c.zone_id == "")

  abbrev pub answered : Option Fields → Exec Domains Fields
  answered none = raise (raised "HTTPError")
  answered (some result) =
      if is_truthy (some (get_or "success" (bool false) result))
      then pure result
      else raise (raised "Exception")

  -- `_request`
  unfoldable pub request : String → String → Fields → Exec Domains Fields
  request method endpoint data' = do
    answer ← draw (λ k. c.request k method endpoint data')
    answered answer

  abbrev endpoint : String → String
  endpoint rest = join ("/zones/" ∷ c.zone_id ∷ rest ∷ [])

  abbrev dns_record : String → String → String → Bool → ℕ → Fields
  dns_record name content record_type proxied ttl = field "type" (str record_type) (
      field "name" (str name) (
        field "content" (str content) (field "proxied" (bool proxied) (field "ttl" (num ttl) nil))))

  unfoldable pub create_dns_record : String → String → String → Bool → ℕ → Exec Domains Json
  unfolding request
  create_dns_record name content record_type proxied ttl =
      if is_configured
      then (do
        result ←
            request "POST" (endpoint "/dns_records")
              (dns_record name content record_type proxied ttl)
        pure (get_or "result" (obj nil) result))
      else pure (obj (field "id" (str "mock-dns-id") (field "name" (str name) nil)))

  -- A DELETE, whose failure is told and not raised.
  unfoldable pub delete_quietly : String → Exec Domains Bool
  unfolding request
  delete_quietly rest =
      if is_configured
      then catch (do request "DELETE" (endpoint rest) nil; pure true) (λ e. pure false)
      else pure true

  abbrev pub delete_dns_record : String → Exec Domains Bool
  delete_dns_record record_id = delete_quietly (join ("/dns_records/" ∷ record_id ∷ []))

  -- A GET, whose failure gives `None`.
  unfoldable pub get_quietly : String → Exec Domains (Option Json)
  unfolding request
  get_quietly rest =
      if is_configured
      then catch (do result ← request "GET" (endpoint rest) nil; pure (get "result" result))
          (λ e. pure none)
      else pure none

  abbrev pub get_dns_record : String → Exec Domains (Option Json)
  get_dns_record record_id = get_quietly (join ("/dns_records/" ∷ record_id ∷ []))

  abbrev hostname_data : String → String → Fields
  hostname_data hostname ssl_method = field "hostname" (str hostname) (
      field "ssl"
        (obj (
          field "method" (str ssl_method) (
            field "type" (str "dv")
              (field "settings" (obj (field "min_tls_version" (str "1.2") nil)) nil))))
        nil)

  unfoldable pub create_custom_hostname : String → String → Exec Domains Json
  unfolding request
  create_custom_hostname hostname ssl_method =
      if is_configured
      then (do
        result ← request "POST" (endpoint "/custom_hostnames") (hostname_data hostname ssl_method)
        pure (get_or "result" (obj nil) result))
      else pure (
          obj (
            field "id" (str "mock-hostname-id") (
              field "hostname" (str hostname) (
                field "status" (str "pending")
                  (field "ssl" (obj (field "status" (str "pending_validation") nil)) nil)))))

  abbrev pub get_custom_hostname : String → Exec Domains (Option Json)
  get_custom_hostname hostname_id = get_quietly (join ("/custom_hostnames/" ∷ hostname_id ∷ []))

  abbrev pub delete_custom_hostname : String → Exec Domains Bool
  delete_custom_hostname hostname_id =
      delete_quietly (join ("/custom_hostnames/" ∷ hostname_id ∷ []))

  unfoldable pub verify_connection : Exec Domains Json
  unfolding request
  verify_connection =
      if is_configured
      then catch
          (do result ← request "GET" (endpoint "") nil; pure (get_or "success" (bool false) result))
          (λ e. pure (bool false))
      else pure (bool false)
