-- ===== src/Gateway/RateLimit/Windows.antt =====
-- How many requests of a client pass in one window of a minute.
use back_end.Prelude.{
  All, ℕ, ◌+◌, ◌*◌, ◌/◌, ◌≤◌, ◌<◌, min, String, true, false, none, some, List, [], ◌∷◌, ◌≡◌, ◌≢◌,
  ◌⊎◌, ◌∙◌, refl, sym, subst, ap, arith, ◌==◌, string_eq, nat_eq, eq_iff, if◌then◌else◌, ◌&&◌, not,
  ltb, leb, Bool-cases, inl, inr, beq_refl,
}
use back_end.Prelude.Dict
use back_end.Prelude.Dict.{Dict, get-put, get-put_other}
use back_end.Gateway.RateLimit.{
  Counter, Counters, increased, incr, expire, hit, redis_key, is_rate_limited,
}

-- A counter's value after `n` requests, and that it does not run out before a time.
abbrev Counts : String → ℕ → ℕ → Counters → Type 0
Counts k end n counters =
    ((n ≡ 0) × (Dict.get k counters ≡ none))
    ⊎ ((c : Counter) × (at : ℕ) × (Dict.get k counters ≡ some c)
        × (c.count ≡ n)
        × (0 < n)
        × (c.expires_at ≡ some at)
        × (end ≤ at))

hit_first :
    (k : String) (now : ℕ) (counters : Counters)
    → Dict.get k counters ≡ none
    → ((hit now k counters).0.count ≡ 1)
      × (Dict.get k (hit now k counters).1
          ≡ some (record { count = 1; expires_at = some (now + 70) }))
unfolding hit incr expire
hit_first k now counters h = rw h (refl, get-put k k _ _ ∙ rw (beq_refl k) refl)

hit_again :
    (k : String) (now at : ℕ) (c : Counter) (counters : Counters)
    → Dict.get k counters ≡ some c
    → c.expires_at ≡ some at
    → now < at
    → 0 < c.count
    → ((hit now k counters).0.count ≡ c.count + 1)
      × (Dict.get k (hit now k counters).1 ≡ some (record c { count = c.count + 1 }))
unfolding hit incr
hit_again k now at c counters h e live pos =
    let in_time : leb at now ≡ false = ground arith in
    let more : (c.count + 1 == 1) ≡ false = ground arith in
    rw (h, e, in_time, more) (refl, get-put k k _ _ ∙ rw (beq_refl k) refl)

hit_other :
    (k other : String) (now : ℕ) (counters : Counters)
    → other ≢ k
    → Dict.get k (hit now other counters).1 ≡ Dict.get k counters
unfolding hit incr expire
hit_other k other now counters ne =
    elim (Bool-cases ((increased now (Dict.get other counters)).count == 1)) [
      | inl one ↦ rw one (
          get-put_other other k _ (Dict.put other _ counters) (λ e. ne (sym e))
          ∙ get-put_other other k _ counters (λ e. ne (sym e)))
      | inr more ↦ rw more (get-put_other other k _ counters (λ e. ne (sym e)))
    ]

hit-Counts :
    (k : String) (now end n : ℕ) (counters : Counters)
    → now < end
    → end ≤ now + 70
    → Counts k end n counters
    → ((hit now k counters).0.count ≡ n + 1) × Counts k end (n + 1) (hit now k counters).1
hit-Counts k now end n counters before soon (inl (z, absent)) =
    let (count, found) = hit_first k now counters absent in
    (omega (arith, count, z), inr (_, _, found, omega (arith, z), omega arith, refl, soon))
hit-Counts k now end n counters before soon (inr (c, at, found, is, pos, expiry, later)) =
    let (count, found') = hit_again k now at c counters found expiry (omega arith) (omega arith) in
    (omega (arith, count, is), inr (_, at, found', omega (arith, is), omega arith, expiry, later))

module _ (str_int : ℕ → String) (limit : ℕ) where
  -- A request in the window of a client or of another, whose counter is another.
  pub record InWindow (client : String) (window : ℕ) (r : ℕ × String) : Type 0 where
    pub same_window : r.0 / 60 ≡ window
    pub apart : (r.1 ≡ client) ⊎ (redis_key str_int r.1 window ≢ redis_key str_int client window)

  -- How many of the requests are the client's, and how many of those are let through.
  abbrev pub sent : String → List (ℕ × String) → ℕ
  sent client [] = 0
  sent client ((now, key) ∷ rs) = (if key == client then 1 else 0) + sent client rs

  abbrev pub let_through : String → List (ℕ × String) → Counters → ℕ
  let_through client [] counters = 0
  let_through client ((now, key) ∷ rs) counters =
      let (refused, counters') = is_rate_limited str_int limit now key counters in
      (if key == client && not refused then 1 else 0) + let_through client rs counters'

  own_request :
      (client : String) (window n now : ℕ) (counters : Counters)
      → now / 60 ≡ window
      → Counts (redis_key str_int client window) (window * 60 + 60) n counters
      → let (refused, counters') = is_rate_limited str_int limit now client counters in
        (refused ≡ ltb limit (n + 1))
        × Counts (redis_key str_int client window) (window * 60 + 60) (n + 1) counters'
  unfolding is_rate_limited
  own_request client window n now counters w c =
      let (count, next) =
        hit-Counts (redis_key str_int client window) now (window * 60 + 60) n counters
          (omega (arith, w)) (omega (arith, w)) c in
      rw w (ap (ltb limit) count, next)

  other_request :
      (client key : String) (window n now : ℕ) (counters : Counters)
      → now / 60 ≡ window
      → redis_key str_int key window ≢ redis_key str_int client window
      → Counts (redis_key str_int client window) (window * 60 + 60) n counters
      → Counts
          (redis_key str_int client window)
          (window * 60 + 60)
          n
          (is_rate_limited str_int limit now key counters).1
  unfolding is_rate_limited
  other_request client key window n now counters w ne c =
      let same =
        hit_other (redis_key str_int client window) (redis_key str_int key window) now counters
          ne in
      rw (w, same) c

  is_apart :
      (client key : String) (window now : ℕ)
      → InWindow client window (now, key)
      → (key == client) ≡ false
      → redis_key str_int key window ≢ redis_key str_int client window
  is_apart client key window now r other = elim r.apart [
    | inl same ↦ let is : (key == client) ≡ true = (eq_iff key client).1 same in absurd (cc)
    | inr apart ↦ apart
  ]

  let_through_own :
      (client : String) (window n now : ℕ) (rs : List (ℕ × String)) (counters : Counters)
      → (is_rate_limited str_int limit now client counters).0 ≡ ltb limit (n + 1)
      → let_through client rs (is_rate_limited str_int limit now client counters).1
          + min limit (n + 1)
        ≡ min limit (n + 1 + sent client rs)
      → let_through client ((now, client) ∷ rs) counters + min limit n
        ≡ min limit (n + sent client ((now, client) ∷ rs))
  let_through_own client window n now rs counters refused ih =
      rw (beq_refl client, refused) (ground (arith, ih))

  -- A client's requests in a window, `n` of which have come before.
  let_through_from :
      (client : String) (window n : ℕ) (rs : List (ℕ × String)) (counters : Counters)
      → All (InWindow client window) rs
      → Counts (redis_key str_int client window) (window * 60 + 60) n counters
      → let_through client rs counters + min limit n ≡ min limit (n + sent client rs)
  let_through_from client window n [] counters h c = omega arith
  let_through_from client window n ((now, key) ∷ rs) counters (r, h) c =
      elim (Bool-cases (key == client)) [
        | inl own ↦
            let e : key ≡ client = (eq_iff key client).0 own in
            let (refused, next) = own_request client window n now counters r.same_window c in
            subst
              (λ k.
                let_through client ((now, k) ∷ rs) counters + min limit n
                ≡ min limit (n + sent client ((now, k) ∷ rs)))
              (sym e)
              (let_through_own client window n now rs counters refused
                (let_through_from client window (n + 1) rs _ h next))
        | inr other ↦
            let apart = is_apart client key window now r other in
            let ih =
              let_through_from client window n rs _ h
                (other_request client key window n now counters r.same_window apart c) in
            rw other (omega (arith, ih))
      ]

  -- In one window of a minute exactly the first `limit` requests of a client pass, whatever other
  -- clients send in it meanwhile, provided their counters have other keys.
  pub let_through_lem :
      (client : String) (window : ℕ) (rs : List (ℕ × String)) (counters : Counters)
      → All (InWindow client window) rs
      → Dict.get (redis_key str_int client window) counters ≡ none
      → let_through client rs counters ≡ min limit (sent client rs)
  let_through_lem client window rs counters h fresh =
      omega (arith, let_through_from client window 0 rs counters h (inl (refl, fresh)))
