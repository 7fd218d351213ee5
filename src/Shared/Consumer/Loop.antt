-- ===== src/Shared/Consumer/Loop.antt =====
-- `_ensure_group` and `run_forever` of shared/src/shared/events/consumer.py. The loop is recursion
-- on what producers add to the stream before each of its turns; the list ends where `stop` is called.
use back_end.Prelude.{
  String, Option, none, some, List, [], ◌∷◌, ◌++◌, ◌==◌, string_eq, if◌then◌else◌, take, drop,
}
use back_end.Prelude.Dict.{Dict}
use back_end.Prelude.Text.{occurs_in}
use back_end.Prelude.Exec.{Result, ok, err, raised}
use back_end.Shared.Consumer.{Entry, Group, Consumer, handle}

-- The group and the entries of the stream that it has not been given.
pub record Channel (S : Type 0) : Type 0 where
  pub group : Group S
  pub undelivered : Dict String Entry

-- `_ensure_group`, by the text of the `ResponseError` that `xgroup_create` raises, if it raises one
unfoldable pub ensure_group : Option String → Result (Unit {0})
ensure_group none = ok tt
ensure_group (some text) =
    if occurs_in "BUSYGROUP" text then ok tt else err (raised "ResponseError")

module _ {S : Type 0} where
  -- `xreadgroup` with `count=10`: new entries, which are pending from then on, or pending ones
  unfoldable pub xreadgroup : String → Channel S → Dict String Entry × Channel S
  unfolding take drop
  xreadgroup start_id ch =
      if start_id == ">"
      then (
        take 10 ch.undelivered,
        record ch {
          group = record ch.group { pending = ch.group.pending ++ take 10 ch.undelivered };
          undelivered = drop 10 ch.undelivered;
        },
      )
      else (take 10 ch.group.pending, ch)

  -- What producers add to the stream.
  abbrev pub arrive : Dict String Entry → Channel S → Channel S
  arrive arrived ch = record ch { undelivered = ch.undelivered ++ arrived }

  module _ (c : Consumer S) where
    -- `for msg_id, fields in messages`
    unfoldable pub handle_each : Dict String Entry → Group S → Group S
    unfolding handle
    handle_each [] g = g
    handle_each ((id, fields) ∷ messages) g = handle_each messages (handle c id fields g)

    abbrev pub process : String → Dict String Entry × Channel S → String × Channel S
    process start_id ([], ch) = (">", ch)
    process start_id (message ∷ messages, ch) =
        (start_id, record ch { group = handle_each (message ∷ messages) ch.group })

    -- The body of the `while` loop, on its `start_id`.
    unfoldable pub turn : Dict String Entry → String × Channel S → String × Channel S
    unfolding xreadgroup handle_each
    turn arrived (start_id, ch) = process start_id (xreadgroup start_id (arrive arrived ch))

    unfoldable pub turns : List (Dict String Entry) → String × Channel S → String × Channel S
    unfolding turn
    turns [] s = s
    turns (arrived ∷ rounds) s = turns rounds (turn arrived s)

    abbrev pub loop :
        Result (Unit {0}) → List (Dict String Entry) → Channel S → Result (Unit {0}) × Channel S
    loop (err e) rounds ch = (err e, ch)
    loop (ok _) rounds ch = (ok tt, (turns rounds ("0", ch)).1)

    unfoldable pub run_forever :
        Option String → List (Dict String Entry) → Channel S → Result (Unit {0}) × Channel S
    unfolding ensure_group turns
    run_forever created rounds ch = loop (ensure_group created) rounds ch
