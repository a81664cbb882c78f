-- ===== src/Tclk/Transcript/History.antt =====
-- The frames of records, read without the loops: each with its venue time, the latest first.
use flop_contributions.Prelude.{ℤ, Option, none, some, List, [], ◌∷◌, ◌++◌, if◌then◌else◌}
use flop_contributions.Outcome.{Outcome, ok}
use flop_contributions.Text.{Str, eq_str}
use flop_contributions.Json.{Value, obj, Fields, get}
use flop_contributions.Platform.{Platform}
use flop_contributions.Tclk.Frame.{Body, Frame}
use flop_contributions.Tclk.Validate.{decode_line}
use flop_contributions.Tclk.Transport.{parse_time}
use flop_contributions.Tclk.Transcript.{value_at}

-- A frame and its venue time.
abbrev pub Dated : Type 0
Dated = Frame × ℤ

abbrev pub dated_from : Outcome (Option Frame) → Outcome ℤ → List Dated
dated_from (ok (some frame)) (ok now) = (frame, now) ∷ []
dated_from _ _ = []

-- The frame in a record's text, if there is one.
abbrev pub dated : Platform → Fields → List Dated
dated p fields =
    dated_from (decode_line p (value_at "text" fields)) (parse_time p (get "ts" fields))

-- The frames of the messages of a batch, in front of the older ones.
abbrev pub history : Platform → List Dated → List Value → List Dated
history p older [] = older
history p older (obj fields ∷ vs) = history p (dated p fields ++ older) vs
history p older (_ ∷ vs) = history p older vs

abbrev pub owner_in : Body → Str → Option Str → Option Str
owner_in (Body.accept ref statement contract nonce) x before =
    if eq_str contract x then some ref else before
owner_in _ x before = before

-- The offer whose acceptance was the last to name the contract id.
abbrev pub owner_of : List Dated → Str → Option Str
owner_of [] x = none
owner_of ((frame, now) ∷ older) x = owner_in frame.body x (owner_of older x)
