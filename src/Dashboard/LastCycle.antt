-- ===== src/Dashboard/LastCycle.antt =====
-- What the dashboard shows of the defender's last reasoning cycle, from the files it has written.
use k3df.Base.{ℕ, ◌≡◌, ◌⊎◌, String, Result}
use k3df.Base.Int.{pos}
use k3df.Json.{Value, null, int, str, obj, Fields, end, field, get}
use k3df.Defender.Store.{document}
use k3df.Defender.Config.{Config}
use k3df.Defender.Evidence.{Evidence}
use k3df.Defender.Graph.Observe.{or_value}
use k3df.Defender.Service.{Service}
use k3df.Defender.Service.Cycle.{World, Moment}
use k3df.Defender.Service.Written.{Kept, Stamp, Call, call, event_lines, state_document}
use k3df.Defender.Service.Outcome.{Answered}
use k3df.Dashboard.{EventFile, Reasoning, reasoning_snapshot}
use k3df.Dashboard.LastLine.{appended}

abbrev end_call : Fields → Value → Call
end_call d v = call "REASONING_END" v (obj d) null

abbrev error_call : String → Call
error_call message =
    call "ERROR" (str "reasoning safe failure") (obj (field "error" (str message) end)) null

module _ (iso : ℕ → String) (no_analysis : Value) (k : Kept) (now : String) (stamps : ℕ → Stamp)
    (file : EventFile) where
  -- `reasoning_snapshot` after the defender has saved a state, on the file that its events were
  -- appended to.
  abbrev pub shown_after : Service → Result Reasoning
  shown_after t =
      reasoning_snapshot no_analysis (document (obj (state_document iso k now t)))
        (appended file (event_lines iso stamps 0 t.events))

module _ (w : World) (c : Config) (m : Moment) (no_analysis : Value) (k : Kept) (now : String)
    (stamps : ℕ → Stamp) (file : EventFile) where
  -- What is shown of a state: its cycle, and what came of the reasoning in that context.
  abbrev pub ShowsCycle : Fields → Service → Reasoning → Type 0
  ShowsCycle asked t r =
      (r.cycle ≡ int (pos t.cycle))
      × (r.phase ≡ str t.current_phase)
      × (r.threat_level ≡ t.threat_level)
      × (((d : Fields) × (v : Value) × Answered w c asked d v
            × (r.summary ≡ or_value v no_analysis)
            × (r.confidence ≡ get "confidence" d))
          ⊎ ((r.summary ≡ str "reasoning safe failure") × (r.confidence ≡ null)))
