-- ===== src/Defender/LoopTests.antt =====
-- Runs of the defender's loop at concrete inputs, and the theorems applied to them.
use k3df.Base.{
  ℕ, ◌≡◌, refl, true, String, Option, none, some, List, [], ◌∷◌, ok, value_error, text_dec,
  if◌then◌else◌, leb, ◌&&◌, ◌-◌,
}
use k3df.Json.{Value, null, str, arr, nil, cons, obj, Fields, end, field, find, truthy, one, float}
use k3df.Text.{split, before, is_ascii}
use k3df.Defender.Address.{v4, ip_address, in_network, address_of_text}
use k3df.Defender.Policy.{is_protected}
use k3df.Defender.Evidence.{Evidence}
use k3df.Defender.Collect.{readable}
use k3df.Defender.Collect.Pattern.{Entry, read_line, span, after_prefix, match, read_three}
use k3df.Defender.Collect.Lines.{main_line, read_line_main}
use k3df.Defender.Collect.Url.{
  urlsplit, strip_controls, without_scheme, query_names, field_names, split_fields,
}
use k3df.Defender.Collect.Sources.{
  access_item, Library, no_time, access_items, access_log, scanner_result,
}
use k3df.Defender.Tests.{config, service}
use k3df.Defender.Service.Keyed.{Inserted, upsert-Inserted}
use k3df.Defender.Service.Upsert.{upsert}
use k3df.Defender.Service.Contain.{AllPermitted}
use k3df.Defender.Service.Advised.{Advised}
use k3df.Defender.Service.Advice.{apply_analysis-Advised}
use k3df.Defender.Service.Analysis.{apply_analysis}
use k3df.Defender.Service.Cycle.{World, Moment}
use k3df.Defender.Service.Tick.{tick}
use k3df.Defender.Service.Run.{tick_turn, request, run}
use k3df.Defender.Service.Permitted.{run-AllPermitted}
use k3df.Defender.Service.Completes.{Completes, tick-Completes}
use k3df.Defender.Service.Stops.{tick_stops}

abbrev decimal_digit : ℕ → Option ℕ
decimal_digit c = if leb b'0' c && leb c b'9' then some (c - b'0') else none

-- One request for an ordinary page, and one whose target has a bracket after two slashes.
abbrev pub page : String
page =
    main_line "203.0.113.9" "-" "01/Jan/2026:00:00:00 +0000" "GET" "/login?id=1" "HTTP/1.1" "200"
      " 5"

abbrev odd : String
odd = "203.0.113.9 - - [01/Jan/2026:00:00:00 +0000] \"GET //[ HTTP/1.1\" 400 5"

-- The model proposes to block the address of the request.
abbrev analysis : Fields
analysis =
    field "analysis"
      (obj (
        field "threat_level" (str "HIGH")
          (field "summary" (str "probing") (field "confidence" (float one) end))))
      (field "capability_updates"
        (arr (cons (obj (field "capability" (str "credential_acquired") end)) nil)) end)

abbrev library : List String → Library
library lines = record {
  digit = decimal_digit;
  checks = λ s. true;
  unquote = λ s. s;
  digest = λ s. s;
  date = λ s. some "2026-01-01T00:00:00+00:00";
  text = λ v. "text";
  lines = λ bytes. lines;
}

abbrev pub world : List String → World
world lines = record {
  parse = λ s. none;
  dumps = λ v. "dumps";
  iso = λ n. "2026-01-01T00:00:00+00:00";
  message = λ e. "error";
  model = λ r. ok (obj analysis);
  library = library lines;
}

abbrev pub moment : Moment
moment = record {
  log = readable 7 1 (b'x' ∷ []);
  scan = no_time;
  now = 1_000_000_000;
  start = 20_000_000;
  finish = 21_000_000;
  times = λ i. (1_000_000_000, 1_000_000_001);
  stamp = str "2026-01-01T00:00:00+00:00";
  saves = true;
}

service-AllPermitted : AllPermitted config service
unfolding is_protected in_network ip_address address_of_text split
service-AllPermitted = ((v4 3_325_256_711, refl, refl), tt)

run-AllPermitted_example :
    AllPermitted config
      (run
        (world (page ∷ []))
        config
        (tick_turn moment ∷ request 1_000_000_500 "/nginx/auth" (some "203.0.113.9") ∷ [])
        service).0
run-AllPermitted_example =
    run-AllPermitted config (world (page ∷ []))
      (tick_turn moment ∷ request 1_000_000_500 "/nginx/auth" (some "203.0.113.9") ∷ []) service
      service-AllPermitted

apply_analysis-Advised_example :
    Advised service (apply_analysis (λ s. none) (λ v. "dumps") null [] analysis service).0
apply_analysis-Advised_example =
    apply_analysis-Advised (λ s. none) (λ v. "dumps") null [] analysis service

abbrev incident : Fields
incident = field "incident_id" (str "INC-1") (field "summary" (str "probing") end)

upsert-Inserted_example :
    (es' : List Value) × (upsert
        (obj (field "incident_id" (str "INC-1") end) ∷ [])
        (obj incident)
        "incident_id"
      ≡ ok es')
    × Inserted "incident_id" "INC-1" incident (obj (field "incident_id" (str "INC-1") end) ∷ []) es'
unfolding find text_dec truthy
upsert-Inserted_example =
    upsert-Inserted "incident_id" "INC-1" incident
      (obj (field "incident_id" (str "INC-1") end) ∷ []) ((("INC-1", refl, refl), tt))
      (refl, (refl, tt)) refl refl

read_line_main_example :
    read_line decimal_digit page
    ≡ some (record {
      ip = "203.0.113.9";
      time = "01/Jan/2026:00:00:00 +0000";
      method = "GET";
      target = "/login?id=1";
      protocol = "HTTP/1.1";
      status = "200";
    })
read_line_main_example =
    read_line_main decimal_digit "203.0.113.9" "-" "01/Jan/2026:00:00:00 +0000" "GET" "/login?id=1"
      "HTTP/1.1" "2" "0" "0" " 5" (refl, refl) (refl, refl) (refl, refl) (refl, refl) (refl, refl)
      (refl, refl) refl refl refl

abbrev odd_entry : Entry
odd_entry = record {
  ip = "203.0.113.9";
  time = "01/Jan/2026:00:00:00 +0000";
  method = "GET";
  target = "//[";
  protocol = "HTTP/1.1";
  status = "400";
}

odd-read_line : read_line decimal_digit odd ≡ some odd_entry
unfolding read_line match span after_prefix read_three
odd-read_line = refl

tick_stops_example :
    (run (world (page ∷ odd ∷ [])) config (tick_turn moment ∷ []) service
      ≡ tick (world (page ∷ odd ∷ [])) config moment service)
    × ((run (world (page ∷ odd ∷ [])) config (tick_turn moment ∷ []) service).1 ≡ some value_error)
    × ((run (world (page ∷ odd ∷ [])) config (tick_turn moment ∷ []) service).0.events ≡ [])
    × ((run (world (page ∷ odd ∷ [])) config (tick_turn moment ∷ []) service).0.last_reasoning_at
        ≡ null)
tick_stops_example =
    tick_stops (world (page ∷ odd ∷ [])) config moment [] service (page ∷ []) [] odd "[" odd_entry
      refl odd-read_line refl refl refl

abbrev page_entry : Entry
page_entry = record {
  ip = "203.0.113.9";
  time = "01/Jan/2026:00:00:00 +0000";
  method = "GET";
  target = "/login?id=1";
  protocol = "HTTP/1.1";
  status = "200";
}

-- The item of the one line.
abbrev pub found : List Evidence
found =
    access_item (library (page ∷ [])) "/var/log/nginx/access.log" (str "2026-01-01T00:00:00+00:00")
      page page_entry (record { path = "/login"; query = "id=1" })
    ∷ []

pub access_log-found :
    (access_log
      (library (page ∷ []))
      "/var/log/nginx/access.log"
      (str "2026-01-01T00:00:00+00:00")
      (readable 7 1 (b'x' ∷ []))
      (record { access_log_offset = 0; access_log_inode = none })).1
    ≡ ok found
unfolding access_log access_items read_line match span after_prefix read_three urlsplit
    strip_controls without_scheme before is_ascii query_names field_names split_fields
access_log-found = refl

tick-Completes_example :
    Completes config moment found service (tick (world (page ∷ [])) config moment service)
unfolding scanner_result
tick-Completes_example =
    tick-Completes (world (page ∷ [])) config moment found service access_log-found refl refl
