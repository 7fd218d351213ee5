-- ===== src/Shared/Host.antt =====
-- What a service draws from its surroundings: clocks, random values, the Redis connection. The
-- k-th draw of a run has the answer `k` of these functions, so that two draws may differ and
-- nothing is assumed of them; what a theorem needs of them it states as a hypothesis.
use back_end.Prelude.{ℕ, String, Bool, ◌*◌, ◌^◌, ◌<◌, ◌≡◌, Option, some}

pub record Host : Type 0 where
  -- `datetime.utcnow()`, in microseconds; `int(time.time())`, in seconds
  pub utcnow : ℕ → ℕ
  pub time : ℕ → ℕ
  -- `uuid.uuid4()`; `secrets.token_urlsafe(nbytes)`
  pub uuid4 : ℕ → ℕ
  pub token_urlsafe : ℕ → ℕ → String
  -- `str(uuid)` and `uuid.UUID(text)`, which raises `ValueError` (`none`) on other texts
  pub str_uuid : ℕ → String
  pub parse_uuid : String → Option ℕ
  -- `int(text)`, which raises `ValueError` (`none`) on other texts
  pub parse_int : String → Option ℕ
  -- whether Redis answers, and the entry id that XADD returns
  pub redis_up : ℕ → Bool
  pub message_id : ℕ → String

-- A UUID is a 128-bit number, and its text form reads back as the same number.
pub record HostLaws (h : Host) : Type 0 where
  pub parse-str : (u : ℕ) → u < 2 ^ 128 → h.parse_uuid (h.str_uuid u) ≡ some u
  pub uuid4_bound : (k : ℕ) → h.uuid4 k < 2 ^ 128

-- `timedelta(minutes=m)` and `timedelta(seconds=s)`, in microseconds
abbrev pub minutes : ℕ → ℕ
minutes m = m * 60 * 1000000

abbrev pub seconds : ℕ → ℕ
seconds s = s * 1000000
