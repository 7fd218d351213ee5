-- ===== src/Gateway/Media.antt =====
-- services/api-gateway/app/services/media.py: a file of the media root, whole or a byte range of it.
pub mod Slices
pub mod Chunks
pub mod Ranges
use back_end.Prelude.{
  ℕ, zero, suc, code, ◌&&◌, ◌+◌, ◌-◌, ◌*◌, min, String, Bool, true, false, Char, Option, none, some,
  List, [], ◌∷◌, ◌==◌, string_eq, nat_eq, if◌then◌else◌, ◌||◌, ltb, leb, not, length, join,
}
use back_end.Prelude.Text.{starts_with, strip, drop_while, drop as drop_chars}
use back_end.Prelude.Exec.{Result, ok, err, raised}
use Prim.Native.String
use back_end.Gateway.Media.Slices.{Bytes, take, drop}

abbrev pub chunk_size : ℕ
chunk_size = 64 * 1024

abbrev pub is_nil : Bytes → Bool
is_nil [] = true
is_nil (_ ∷ _) = false

-- The `while` loop of `_iter_file`, on what is left of the file. Each round reads at least one byte, so
-- that as many rounds as bytes remain are enough.
unfoldable pub iter_from : ℕ → ℕ → ℕ → Bytes → List Bytes
unfolding take drop
iter_from zero chunk remaining rest = []
iter_from (suc fuel) chunk remaining rest =
    let read = take (min chunk remaining) rest in
    let later = iter_from fuel chunk (remaining - length read) (drop (length read) rest) in
    if remaining == 0 then [] else if is_nil read then [] else read ∷ later

-- `_iter_file`
unfoldable pub iter_file : Bytes → ℕ → ℕ → List Bytes
unfolding iter_from drop
iter_file content start end =
    let remaining = end + 1 - start in iter_from remaining chunk_size remaining (drop start content)

-- The media root on the disk: `base` is `str(root.resolve())`, `resolve` gives `(base / relative).resolve()`
-- of a relative path, and `file_at` the content of a path that is a file.
pub record Root : Type 0 where
  pub base : String
  pub resolve : String → String
  pub file_at : String → Option Bytes

-- What `re` and `int` make of digits, and `str` of a number. `int` raises a `ValueError` (`none`) of a text
-- with more digits than the interpreter converts (4300 unless it is set otherwise).
pub record Numerals : Type 0 where
  pub is_digit : Char → Bool
  pub int_of : String → Option ℕ
  pub str_int : ℕ → String

pub data Response : Type 0 where
  -- a plain text with a status
  plain : ℕ → String → Response
  -- `FileResponse`
  whole : Bytes → Response
  -- status 206: `Content-Range`, `Content-Length` and the chunks
  partial : String → String → List Bytes → Response

-- The first characters that pass a test.
unfoldable pub take_while : (Char → Bool) → String → String
take_while p String.[] = String.[]
take_while p (String.◌∷◌ c s) =
    let rest = take_while p s in if p c then String.◌∷◌ c rest else String.[]

-- The groups of `bytes=(\d*)-(\d*)`, of the whole text.
abbrev pub groups : (Char → Bool) → String → String → Option (String × String)
groups p first (String.[]) = none
groups p first (String.◌∷◌ dash rest) =
    if code dash == 45 && drop_while p rest == "" then some (first, rest) else none

-- `_RANGE_RE.fullmatch`
unfoldable pub match_range : (Char → Bool) → String → Option (String × String)
unfolding starts_with drop_while take_while
match_range p s =
    let rest = drop_chars 6 s in
    if starts_with s "bytes=" then groups p (take_while p rest) (drop_while p rest) else none

module _ (n : Numerals) where
  -- `int`
  abbrev pub read_int : Option ℕ → Result ℕ
  read_int none = err (raised "ValueError")
  read_int (some k) = ok k

  -- `int(end_s) if end_s else size - 1`
  abbrev pub end_of : String → ℕ → Result ℕ
  end_of end_s size = if end_s == "" then ok (size - 1) else read_int (n.int_of end_s)

  -- The last bytes, as many as were read.
  abbrev pub last_bytes : ℕ → Result ℕ → Result (Option (ℕ × ℕ))
  last_bytes size (err e) = err e
  last_bytes size (ok count) = ok (some (size - count, size - 1))

  abbrev pub bytes_between : Result ℕ → Result ℕ → Result (Option (ℕ × ℕ))
  bytes_between (err e) end = err e
  bytes_between (ok start) (err e) = err e
  bytes_between (ok start) (ok end) = ok (some (start, end))

  -- The first and the last byte of a range, before they are checked; `none` when both groups are empty.
  unfoldable pub bounds_of : String → String → ℕ → Result (Option (ℕ × ℕ))
  bounds_of start_s end_s size =
      if start_s == ""
      then if end_s == "" then ok none else last_bytes size (read_int (n.int_of end_s))
      else bytes_between (read_int (n.int_of start_s)) (end_of end_s size)

  -- The end is cut to the file; a file of no bytes has no last one, and fails the second test.
  unfoldable pub satisfiable : ℕ → ℕ → ℕ → Option (ℕ × ℕ)
  satisfiable start end size =
      let last = min end (size - 1) in
      if ltb last start || leb size start then none else some (start, last)

  abbrev pub stream : Bytes → Option (ℕ × ℕ) → Response
  stream content none = plain 416 "range not satisfiable"
  stream content (some (start, end)) =
      partial
        (join (
          "bytes " ∷ n.str_int start ∷ "-" ∷ n.str_int end ∷ "/" ∷ n.str_int (length content) ∷ []))
        (n.str_int (end + 1 - start)) (iter_file content start end)

  abbrev pub check_bounds : Bytes → Result (Option (ℕ × ℕ)) → Result Response
  check_bounds content (err e) = err e
  check_bounds content (ok none) = ok (plain 416 "invalid range")
  check_bounds content (ok (some (start, end))) =
      ok (stream content (satisfiable start end (length content)))

  -- What the two groups of the `Range` header give of a file.
  unfoldable pub range_response : Bytes → String → String → Result Response
  unfolding bounds_of satisfiable iter_file
  range_response content start_s end_s =
      check_bounds content (bounds_of start_s end_s (length content))

  abbrev pub matched : Bytes → Option (String × String) → Result Response
  matched content none = ok (whole content)
  matched content (some (start_s, end_s)) = range_response content start_s end_s

  abbrev pub range_match : Option String → Option (String × String)
  range_match none = none
  range_match (some s) = if s == "" then none else match_range n.is_digit (strip s)

  abbrev pub serve : Option Bytes → Option String → Result Response
  serve none range_header = ok (plain 404 "not found")
  serve (some content) range_header = matched content (range_match range_header)

  -- `file_response_with_range`
  unfoldable pub file_response_with_range : Root → String → Option String → Result Response
  unfolding starts_with strip match_range range_response
  file_response_with_range root relative range_header =
      let path = root.resolve relative in
      if starts_with path root.base
      then serve (root.file_at path) range_header
      else ok (plain 404 "not found")
