-- ===== src/Dashboard/Health.antt =====
-- dashboard/app.py: `health_snapshot`, `health` and `status`. The request, the clocks and rounding are
-- given: a response has its status and the milliseconds it took.
use k3df.Base.{
  ℕ, Bool, ◌&&◌, String, ◌<>◌, Option, none, some, leb, ltb, if◌then◌else◌, Result, ok, ◌>>=◌,
}
use k3df.Json.{Value, str, obj, end, field}
use k3df.Defender.Store.{StateFile}
use k3df.Dashboard.{EventFile, Reasoning, reasoning_snapshot}
use k3df.Dashboard.Snapshot.{Snapshot, defender_snapshot}
use k3df.Dashboard.Activity.{View}

-- `urlopen`: a response, a `URLError` with its reason, or another error of time or connection.
pub data Probe : Type 0 where
  response : (status latency : ℕ) → Probe
  url_error : String → Probe
  timed_out : Probe

pub record Health : Type 0 where
  pub status : String
  pub service_status : String
  pub latency_ms : Option ℕ
  pub http_status : Option ℕ
  pub checked_at : String
  pub detail : String

abbrev answered : String → ℕ → ℕ → Bool → Health
answered now code latency healthy = record {
  status = if healthy then "protected" else "degraded";
  service_status = if healthy then "稼働中" else "要確認";
  latency_ms = some latency;
  http_status = some code;
  checked_at = now;
  detail = if healthy then "ヘルスチェックに正常に応答しました。" else "正常な応答を受信できませんでした。";
}

abbrev unanswered : String → String → Health
unanswered now reason = record {
  status = "offline";
  service_status = "応答なし";
  latency_ms = none;
  http_status = none;
  checked_at = now;
  detail = "ヘルスチェックに接続できませんでした: " <> reason;
}

unfoldable pub health_snapshot : String → Probe → Health
health_snapshot now (response code latency) =
    answered now code latency (leb 200 code && ltb code 300)
health_snapshot now (url_error reason) = unanswered now reason
health_snapshot now timed_out = unanswered now "timeout"

-- `health`
abbrev pub health_page : Value
health_page = obj (field "status" (str "ok") end)

-- What `status` answers.
pub record Status : Type 0 where
  pub health : Health
  pub uptime_seconds : ℕ
  pub activity : View
  pub reasoning : Reasoning
  pub defender : Snapshot

unfoldable pub status_page : Health → ℕ → View → Value → StateFile → EventFile → Result Status
status_page health uptime activity no_analysis state events =
    reasoning_snapshot no_analysis state events >>= λ reasoning.
    defender_snapshot state events >>= λ defender. ok (record {
      health = health;
      uptime_seconds = uptime;
      activity = activity;
      reasoning = reasoning;
      defender = defender;
    })
