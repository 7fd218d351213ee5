-- ===== src/Gateway/Media/Ranges.antt =====
-- The byte ranges of services/api-gateway/app/services/media.py.
use back_end.Prelude.{
  ℕ, ◌+◌, ◌-◌, ◌≤◌, ◌<◌, min, String, true, false, List, ◌≡◌, ltb, leb, ◌||◌, ◌↔◌, ◌⊎◌, inl, inr,
  refl, ap, ◌∙◌, ◌==◌, string_eq, nat_eq, Bool-cases, length, arith, Option, none, some, ◌≢◌,
  eq_iff,
}
use back_end.Prelude.Exec.{Result, ok, err, raised}
use back_end.Gateway.Media.Slices.{Bytes, take, drop, concat, length-take, length-drop}
use back_end.Gateway.Media.{
  iter_file, Numerals, Response, plain, partial, bounds_of, satisfiable, stream, range_response,
  read_int, last_bytes, bytes_between, check_bounds,
}
use back_end.Gateway.Media.Chunks.{concat-iter_file}

-- What a group of the `Range` header says: nothing when it is empty, else the number that `int` reads.
abbrev pub Says : Numerals → String → Option ℕ → Type 0
Says n s none = s ≡ ""
Says n s (some k) = (s ≢ "") × (n.int_of s ≡ some k)

-- The bytes that a `Range` header with these two groups is about, by RFC 9110: `a-b`, `a-` and `-n`.
abbrev pub Asks : Option ℕ → Option ℕ → ℕ → ℕ → Type 0
Asks none none size j = ⊥
Asks none (some count) size j = (j < size) × (size ≤ j + count)
Asks (some first) none size j = (j < size) × (first ≤ j)
Asks (some first) (some last) size j = (j < size) × (first ≤ j) × (j ≤ last)

-- A response to the header: status 416 if it is about no byte of the file; else the bytes that it is
-- about, which are the ones from `start` to `end`, in chunks, with their number.
pub data IsRange (n : Numerals) (content : Bytes) (asks : ℕ → Type 0) : Response → Type 0 where
  refused : (detail : String) → ((j : ℕ) → ¬ asks j) → IsRange n content asks (plain 416 detail)
  sent :
      (start end : ℕ) (range : String) (chunks : List Bytes)
      → start ≤ end
      → end < length content
      → ((j : ℕ) → asks j ↔ ((start ≤ j) × (j ≤ end)))
      → concat chunks ≡ take (end + 1 - start) (drop start content)
      → length (concat chunks) ≡ end + 1 - start
      → IsRange n content asks (partial range (n.str_int (end + 1 - start)) chunks)

-- What becomes of the request: an exception if a group is not empty and `int` does not read it, and else
-- a response to what the two groups say.
pub data IsAnswer (n : Numerals) (content : Bytes) (start_s end_s : String)
    : Result Response → Type 0 where
  unreadable :
      (s : String)
      → (s ≡ start_s) ⊎ (s ≡ end_s)
      → s ≢ ""
      → n.int_of s ≡ none
      → IsAnswer n content start_s end_s (err (raised "ValueError"))
  answered :
      (first last : Option ℕ) (response : Response)
      → Says n start_s first
      → Says n end_s last
      → IsRange n content (Asks first last (length content)) response
      → IsAnswer n content start_s end_s (ok response)

unsatisfiable :
    (start last size : ℕ)
    → (ltb last start || leb size start) ≡ true
    → (last < start) ⊎ (size ≤ start)
unsatisfiable start last size e = ground arith

satisfied :
    (start last size : ℕ)
    → (ltb last start || leb size start) ≡ false
    → (start ≤ last) × (start < size)
satisfied start last size e = (ground arith, ground arith)

module _ (n : Numerals) (content : Bytes) (asks : ℕ → Type 0) where
  sent-IsRange :
      (start end : ℕ) (range : String)
      → start ≤ end
      → end < length content
      → ((j : ℕ) → asks j ↔ ((start ≤ j) × (j ≤ end)))
      → IsRange n content asks
          (partial range (n.str_int (end + 1 - start)) (iter_file content start end))
  sent-IsRange start end range l m about =
      let bytes = concat-iter_file content start end in
      sent start end range (iter_file content start end) l m about bytes (
        ap length bytes
        ∙ length-take (end + 1 - start) (drop start content)
        ∙ omega (arith, l, m, length-drop start content))

  stream-IsRange :
      (start end : ℕ)
      → ((j : ℕ) → asks j ↔ ((start ≤ j) × ((j ≤ end) × (j < length content))))
      → IsRange n content asks (stream n content (satisfiable n start end (length content)))
  unfolding satisfiable
  stream-IsRange start end about =
      let last = min end (length content - 1) in
      elim (Bool-cases (ltb last start || leb (length content) start)) [
        | inl e ↦ rw e (
            refused "range not satisfiable" (λ j a.
              let h = (about j).0 a in
              elim (unsatisfiable start last (length content) e) [
                | inl l ↦ omega (arith, h.0, h.1.0, h.1.1, l)
                | inr l ↦ omega (arith, h.0, h.1.1, l)
              ]))
        | inr e ↦
            let h = satisfied start last (length content) e in
            rw e (
              sent-IsRange start last _ h.0 (omega (arith, h.1)) (λ j. (
                λ a. let b = (about j).0 a in (b.0, omega (arith, b.1.0, b.1.1)),
                λ b. (about j).1 (b.0, (omega (arith, b.1), omega (arith, b.1, h.1))),
              )))
      ]

module _ (n : Numerals) (content : Bytes) where
  -- The responses to what the groups say.
  first_to_last :
      (a b : ℕ)
      → IsRange n content
          (Asks (some a) (some b) (length content))
          (stream n content (satisfiable n a b (length content)))
  first_to_last a b =
      stream-IsRange n content _ a b (λ j. (λ h. (h.1, (h.2, h.0)), λ h. (h.1.1, h.0, h.1.0)))

  first_on :
      (a : ℕ)
      → IsRange n content
          (Asks (some a) none (length content))
          (stream n content (satisfiable n a (length content - 1) (length content)))
  first_on a =
      stream-IsRange n content _ a (length content - 1)
        (λ j. (λ h. (h.1, (omega (arith, h.0), h.0)), λ h. (h.1.1, h.0)))

  last_ones :
      (k : ℕ)
      → IsRange n content (Asks none (some k) (length content)) (
          stream n content
            (satisfiable n (length content - k) (length content - 1) (length content)))
  last_ones k = stream-IsRange n content _ (length content - k) (length content - 1) (λ j.
      (λ h. (omega (arith, h.1), (omega (arith, h.0), h.0)), λ h. (h.1.1, omega (arith, h.0))))

module _ (n : Numerals) (content : Bytes) (start_s end_s : String) where
  -- The first group is empty, the second one not.
  suffix-IsAnswer :
      (o : Option ℕ)
      → n.int_of end_s ≡ o
      → start_s ≡ ""
      → end_s ≢ ""
      → IsAnswer n content start_s end_s
          (check_bounds n content (last_bytes n (length content) (read_int n o)))
  suffix-IsAnswer none e no_start end = unreadable end_s (inr refl) end e
  suffix-IsAnswer (some k) e no_start end =
      answered none (some k) _ no_start (end, e) (last_ones n content k)

  -- The second group is empty, the first one not.
  open-IsAnswer :
      (o : Option ℕ)
      → n.int_of start_s ≡ o
      → start_s ≢ ""
      → end_s ≡ ""
      → IsAnswer n content start_s end_s
          (check_bounds n content (bytes_between n (read_int n o) (ok (length content - 1))))
  open-IsAnswer none e start no_end = unreadable start_s (inl refl) start e
  open-IsAnswer (some a) e start no_end =
      answered (some a) none _ (start, e) no_end (first_on n content a)

  both-IsAnswer :
      (o p : Option ℕ)
      → n.int_of start_s ≡ o
      → n.int_of end_s ≡ p
      → start_s ≢ ""
      → end_s ≢ ""
      → IsAnswer n content start_s end_s
          (check_bounds n content (bytes_between n (read_int n o) (read_int n p)))
  both-IsAnswer none p e f start end = unreadable start_s (inl refl) start e
  both-IsAnswer (some a) none e f start end = unreadable end_s (inr refl) end f
  both-IsAnswer (some a) (some b) e f start end =
      answered (some a) (some b) _ (start, e) (end, f) (first_to_last n content a b)

-- Whatever the two groups of the `Range` header are, and whatever the file is: if `int` does not read a
-- group that is not empty, `range_response` raises a `ValueError`; else it answers with exactly the bytes
-- that are asked for, with status 416 if there is none, and else the ones from the first to the last of
-- them, whose number is what `Content-Length` says.
pub range_response-IsRange :
    (n : Numerals) (content : Bytes) (start_s end_s : String)
    → IsAnswer n content start_s end_s (range_response n content start_s end_s)
unfolding range_response bounds_of
range_response-IsRange n content start_s end_s = elim (Bool-cases (start_s == "")) [
  | inl e ↦
      let no_start : start_s ≡ "" = (eq_iff start_s "").0 e in
      elim (Bool-cases (end_s == "")) [
        | inl f ↦
            rw (e, f)
              (answered none none _ no_start ((eq_iff end_s "").0 f)
                (refused "invalid range" (λ j h. h)))
        | inr f ↦
            rw (e, f)
              (suffix-IsAnswer n content start_s end_s _ refl no_start
                (ground (arith, f, eq_iff end_s "")))
      ]
  | inr e ↦
      let start : start_s ≢ "" = ground (arith, e, eq_iff start_s "") in
      elim (Bool-cases (end_s == "")) [
        | inl f ↦
            rw (e, f) (open-IsAnswer n content start_s end_s _ refl start ((eq_iff end_s "").0 f))
        | inr f ↦
            rw (e, f)
              (both-IsAnswer n content start_s end_s _ _ refl refl start
                (ground (arith, f, eq_iff end_s "")))
      ]
]
