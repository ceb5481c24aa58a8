-- ===== src/Defender/Service/Cycle.antt =====
-- defender/service.py: one reasoning cycle of `tick`, with defender/kimi.py's `analyze`.
use k3df.Base.{
  ℕ, suc, Bool, String, Option, none, some, List, [], ◌∷◌, length, if◌then◌else◌, ◌==◌, Result,
  raised, Error, runtime_error, ◌>>=◌,
}
use k3df.Base.Int.{pos}
use k3df.Json.{Value, null, int, str, obj, Fields, end, field, get, Float}
use k3df.Defender.Config.{Config}
use k3df.Defender.Collect.{LogFile}
use k3df.Defender.Collect.Sources.{Library, ScanFile}
use k3df.Defender.Kimi.{Request, model_request, validate_result}
use k3df.Defender.Evidence.{Bucket, aggregate}
use k3df.Defender.Service.{
  Service, Event, note, log, add_event, then_next, with_result, in_order, execute_scenarios,
}
use k3df.Defender.Service.Analysis.{list_at, analysis_at, apply_analysis}
use k3df.Defender.Service.Context.{context}

-- Code that is not the repository's: `float` of a text, `json.dumps` with sorted keys,
-- `isoformat` of a number of seconds, `str` of an exception, and the answer of the model's API to
-- a request, read by `json.loads`.
pub record World : Type 0 where
  pub parse : String → Option Float
  pub dumps : Value → String
  pub iso : ℕ → String
  pub message : Error → String
  pub model : Request → Result Value
  pub library : Library

-- What one tick reads: the two files, the clocks in microseconds (`now` for the block
-- list, `start` and `finish` for the interval, `times` for each scenario), and `now_iso()`;
-- and whether the file system lets it replace the file of the state.
pub record Moment : Type 0 where
  pub log : LogFile
  pub scan : ScanFile
  pub now : ℕ
  pub start : ℕ
  pub finish : ℕ
  pub times : ℕ → ℕ × ℕ
  pub stamp : Value
  pub saves : Bool

abbrev pub timed : (ℕ → ℕ × ℕ) → ℕ → List Value → List (ℕ × ℕ × Value)
timed times i [] = []
timed times i (v ∷ vs) = ((times i).0, (times i).1, v) ∷ timed times (suc i) vs

abbrev pub end_of : Fields → Value → Event
end_of result summary = note "REASONING_END" summary (get "analysis" result) null

abbrev pub log_end : Fields → Value → Service → Service × Option Error
log_end result summary s = log (end_of result summary) s

abbrev pub note_end : Fields → Service → Service × Option Error
note_end result = with_result (analysis_at "summary" result) (log_end result)

abbrev pub start_event : List Bucket → Event
start_event batch =
    note "REASONING_START" (str "evidence batch reasoning")
      (obj (field "evidence" (int (pos (length batch))) end)) null

abbrev pub empty_buffer : Service → Service
empty_buffer s = record s { buffer = []; cycle = suc s.cycle }

abbrev pub open_cycle : List Bucket → Service → Service × Option Error
open_cycle batch s = log (start_event batch) (empty_buffer s)

-- The state after that call, if it succeeds.
abbrev pub begin_cycle : List Bucket → Service → Service
begin_cycle batch s = add_event (start_event batch) (empty_buffer s)

abbrev pub close_cycle : ℕ → Service → Service × Option Error
close_cycle finish s = (
  record s { reasoning_cycle_count = suc s.reasoning_cycle_count; last_reasoning = finish },
  none,
)

abbrev pub error_event : String → Event
error_event message =
    note "ERROR" (str "reasoning safe failure") (obj (field "error" (str message) end)) null

module _ (w : World) where
  -- `KimiClient.analyze`
  unfoldable pub analyze : Config → Fields → Result Fields
  analyze c d =
      if c.moonshot_api_key == ""
      then raised runtime_error
      else w.model (model_request c d) >>= validate_result

  abbrev pub execute_listed : Config → Moment → List Value → Service → Service × Option Error
  execute_listed c m vs = execute_scenarios w.iso c (timed m.times 0 vs)

  abbrev pub use_result : Config → Moment → List Bucket → Fields → Service → Service × Option Error
  use_result c m batch result = in_order (
      apply_analysis w.parse w.dumps m.stamp batch result
      ∷ with_result (list_at "defense_scenarios" result) (execute_listed c m)
      ∷ note_end result
      ∷ [])

  -- The body of the `try`.
  unfoldable pub think : Config → Moment → List Bucket → Service → Service × Option Error
  think c m batch s = with_result (analyze c (context c batch s)) (use_result c m batch) s

  -- `except Exception`
  abbrev pub contained : Service × Option Error → Service × Option Error
  contained (s, none) = (s, none)
  contained (s, some e) = log (error_event (w.message e)) s

  -- The `try` statement.
  abbrev pub attempt : Config → Moment → List Bucket → Service → Service × Option Error
  attempt c m batch s = contained (think c m batch s)

  unfoldable pub reason : Config → Moment → Service → Service × Option Error
  reason c m s =
      let batch = aggregate 50 s.buffer in
      then_next (in_order (attempt c m batch ∷ close_cycle m.finish ∷ [])) (open_cycle batch s)
