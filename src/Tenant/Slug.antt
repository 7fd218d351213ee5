-- ===== src/Tenant/Slug.antt =====
-- `_slugify` of services/tenant-service/app/services/onboarding.py, by its steps.
pub mod Chars
use back_end.Prelude.{
  ℕ, String, Bool, true, false, Char, code, ◌==◌, nat_eq, if◌then◌else◌, leb, ◌&&◌, ◌||◌,
}
use back_end.Prelude.Text.{take, strip_by, is_empty}
use Prim.Native.String.{[], ◌∷◌}

abbrev pub is_dash : Char → Bool
is_dash c = code c == 45

-- `[a-z0-9-]`
abbrev pub is_slug_char : Char → Bool
is_slug_char c =
    (leb 97 (code c) && leb (code c) 122) || (leb 48 (code c) && leb (code c) 57) || is_dash c

-- `.replace(" ", "-")`
unfoldable pub dash_spaces : String → String
dash_spaces [] = []
dash_spaces (c ∷ s) = let rest = dash_spaces s in if code c == 32 then "-" ∷ rest else c ∷ rest

-- `_slug_strip_re.sub("", base)`
unfoldable pub keep_slug_chars : String → String
keep_slug_chars [] = []
keep_slug_chars (c ∷ s) = let rest = keep_slug_chars s in if is_slug_char c then c ∷ rest else rest

abbrev pub starts_dash : String → Bool
starts_dash [] = false
starts_dash (c ∷ s) = is_dash c

-- `_slug_dash_re.sub("-", base)`: of a run of dashes the last stays.
unfoldable pub join_dashes : String → String
join_dashes [] = []
join_dashes (c ∷ s) =
    let rest = join_dashes s in if is_dash c && starts_dash s then rest else c ∷ rest

abbrev pub or_tenant : String → String
or_tenant base = if is_empty base then "tenant" else base

-- `_slugify`, `str.lower` being the first argument
unfoldable pub slugify : (String → String) → String → String
unfolding take strip_by dash_spaces keep_slug_chars join_dashes
slugify lower business_name =
    let kept = keep_slug_chars (dash_spaces (lower business_name)) in
    take 32 (or_tenant (strip_by is_dash (join_dashes kept)))
