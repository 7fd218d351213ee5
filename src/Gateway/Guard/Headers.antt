-- ===== src/Gateway/Guard/Headers.antt =====
-- What a request's headers are after the guard has taken the client's identity headers out and set
-- its own.
use back_end.Prelude.{
  String, false, Option, none, some, List, [], ◌∷◌, ◌≡◌, refl, arith, string_eq, eq_iff,
  if◌then◌else◌, map,
}
use back_end.Prelude.Dict
use back_end.Prelude.Dict.{Dict, get-put, get-pop}
use back_end.Prelude.Distinct.{contains, Distinct}
use back_end.Gateway.Guard.{Gateway, strip_headers, set_headers, identity_headers, identity_dict}

pub get-strip_headers :
    (k : String) (names : List String) (d : Dict String String)
    → Dict.get k (strip_headers names d) ≡ (if contains k names then none else Dict.get k d)
unfolding strip_headers contains
get-strip_headers k [] d = refl
get-strip_headers k (n ∷ names) d =
    ground (arith, get-strip_headers k names (Dict.pop n d), get-pop n k d, eq_iff n k, eq_iff k n)

abbrev pub names_of : Dict String String → List String
names_of = map λ h. h.0

abbrev pub or_old : Option String → Option String → Option String
or_old none old = old
or_old (some v) old = some v

absent :
    (k : String) (d : Dict String String) → contains k (names_of d) ≡ false → Dict.get k d ≡ none
unfolding contains Dict.get
absent k [] h = refl
absent k ((n, v) ∷ d) h = ground (arith, absent k d)

-- Headers that are set win over those that are there.
pub get-set_headers :
    (k : String) (more d : Dict String String)
    → Distinct (names_of more)
    → Dict.get k (set_headers more d) ≡ or_old (Dict.get k more) (Dict.get k d)
unfolding set_headers Dict.get
get-set_headers k [] d h = refl
get-set_headers k ((n, v) ∷ more) d h =
    ground (
      arith,
      get-set_headers k more (Dict.put n v d) h.1,
      get-put n k v d,
      eq_iff n k,
      absent n more,
    )

module _ (g : Gateway) where
  -- The headers have different names, and say who the user is.
  pub record States (user superuser : String) (tenant role : Option String) (d : Dict String String)
      : Type 0 where
    pub distinct : Distinct (names_of d)
    pub has_user : Dict.get "x-user-id" d ≡ some user
    pub has_superuser : Dict.get "x-is-superuser" d ≡ some superuser
    pub has_tenant : Dict.get "x-tenant-id" d ≡ tenant
    pub has_role : Dict.get "x-role-id" d ≡ role
    pub no_token : Dict.get "x-service-token" d ≡ none
    pub others : (k : String) → contains k identity_headers ≡ false → Dict.get k d ≡ none

  pub identity_dict-States :
      (user superuser : String) (tenant role : Option String)
      → States user superuser tenant role (identity_dict g user superuser tenant role)
  unfolding identity_dict set_headers Dict.get Dict.put contains identity_headers
  identity_dict-States user superuser none none = record {
    distinct = (refl, (refl, tt));
    has_user = refl;
    has_superuser = refl;
    has_tenant = refl;
    has_role = refl;
    no_token = refl;
    others = λ k h. ground arith;
  }
  identity_dict-States user superuser none (some r) = record {
    distinct = (refl, (refl, (refl, tt)));
    has_user = refl;
    has_superuser = refl;
    has_tenant = refl;
    has_role = refl;
    no_token = refl;
    others = λ k h. ground arith;
  }
  identity_dict-States user superuser (some t) none = record {
    distinct = (refl, (refl, (refl, tt)));
    has_user = refl;
    has_superuser = refl;
    has_tenant = refl;
    has_role = refl;
    no_token = refl;
    others = λ k h. ground arith;
  }
  identity_dict-States user superuser (some t) (some r) = record {
    distinct = (refl, (refl, (refl, (refl, tt))));
    has_user = refl;
    has_superuser = refl;
    has_tenant = refl;
    has_role = refl;
    no_token = refl;
    others = λ k h. ground arith;
  }

pub or_old-none : (o : Option String) → or_old o none ≡ o
or_old-none none = refl
or_old-none (some v) = refl
