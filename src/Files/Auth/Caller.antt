-- ===== src/Files/Auth/Caller.antt =====
-- The caller that services/files-service/app/auth.py makes of a request that the gateway forwards
-- (services/api-gateway/app/utils/middleware.py and app/services/proxy.py).
use back_end.Prelude.{
  ℕ, String, Bool, false, Option, some, List, [], ◌∷◌, ◌≡◌, refl, ◌==◌, string_eq, Bool-cases,
  Option-cases, inl, inr, eq_iff,
}
use back_end.Prelude.Dict
use back_end.Prelude.Dict.{Dict}
use back_end.Shared.Middleware.{is_in}
use back_end.Prelude.Exec.{Result, ok, err, app_error, raised}
use back_end.Files.Auth.{Identity, calls, parse_uuid, identified, identify, superuser}
use back_end.Gateway.Proxy.{without}

-- A header whose name, in lower case, is not on the list is forwarded.
pub get-without :
    (lower : String → String) (names : List String) (name : String) (headers : Dict String String)
    → is_in (lower name) names ≡ false
    → Dict.get name (without lower names headers) ≡ Dict.get name headers
unfolding without Dict.get
get-without lower names name [] h = refl
get-without lower names name ((k, v) ∷ headers) h = elim (Bool-cases (k == name)) [
  | inl e ↦
      let same = (eq_iff k name).0 e in
      let kept : is_in (lower k) names ≡ false = rw same h in rw (kept, e) refl
  | inr e ↦ elim (Bool-cases (is_in (lower k) names)) [
    | inl d ↦ rw (d, e) (get-without lower names name headers h)
    | inr d ↦ rw (d, e) (get-without lower names name headers h)
  ]
]

module _ (parse : String → Option ℕ) (lower : String → String) where
  identified-calls :
      (su : Bool) (user : Result ℕ) (tenant : Result (Option ℕ)) {o : Option Identity}
      → identified parse lower su user tenant ≡ calls o
      → (identity : Identity) × (o ≡ some identity)
        × (user ≡ ok identity.user_id)
        × (identity.is_superuser ≡ su)
  identified-calls su (ok u) (ok t) h =
      (record { user_id = u; tenant_id = t; is_superuser = su }, cc, refl, refl)
  identified-calls su (ok u) (err (app_error _ _)) h = cc
  identified-calls su (ok u) (err (raised _)) h = cc
  identified-calls su (err (app_error _ _)) tenant h = cc
  identified-calls su (err (raised _)) tenant h = cc

  parse_uuid_ok :
      (raw field_name : String) {u : ℕ}
      → parse_uuid parse lower raw field_name ≡ ok u
      → parse raw ≡ some u
  unfolding parse_uuid
  parse_uuid_ok raw field_name h = elim (Option-cases (parse raw)) [
    | inl e ↦ cc (rw (parse_uuid, e) at h)
    | inr (u', e) ↦ let k = rw (parse_uuid, e) at h in cc
  ]

  pub identify-calls :
      (raw : String) (headers : Dict String String) {o : Option Identity}
      → identify parse lower (some raw) headers ≡ calls o
      → (identity : Identity) × (o ≡ some identity)
        × (parse raw ≡ some identity.user_id)
        × (identity.is_superuser ≡ superuser parse lower (Dict.get "x-is-superuser" headers))
  identify-calls raw headers h = elim (Bool-cases (raw == "")) [
    | inl e ↦ cc (rw e at h)
    | inr e ↦
        let r = identified-calls _ _ _ (rw e at h) in
        (r.0, r.1, parse_uuid_ok raw "X-User-Id" r.2, r.3)
  ]
