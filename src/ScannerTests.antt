-- ===== src/ScannerTests.antt =====
-- The scanner's run and the defender's reading of its output at a concrete server.
use k3df.Base.{
  ◌≡◌, ◌≢◌, ◌↔◌, refl, true, false, ◌||◌, String, ◌==◌, none, some, List, [], ◌∷◌, All,
  if◌then◌else◌, text_dec, ok,
}
use k3df.Json.{Value, scale, null, str, zero_float, ltb_float, eqb_float, one}
use k3df.Scanner.{Response, url_of, attack_value}
use k3df.Scanner.Detect.{IsOpen}
use k3df.Scanner.Report.{
  Disk, System, Ending, returned, main, parsed, trim_slashes, scan_value, broken,
}
use k3df.Scanner.Atomic.{fresh, IsAtomic, main-IsAtomic}
use k3df.Defender.Evidence.{Evidence}
use k3df.Defender.Collect.Sources.{Library, changed, scanner_result}
use k3df.Defender.Collect.Reported.{IsReported, main-scanner_result}

abbrev serve : String → Response
serve url = record {
  status = some 200;
  body = if url == "http://localhost/customer?id=1" then "{}" else "{\"customers\": []}";
}

abbrev text_of : Value → String
text_of (str s) = s
text_of _ = "other"

abbrev library : Library
library = record {
  digit = λ c. none;
  checks = λ s. true;
  unquote = λ s. s;
  digest = λ s. s;
  date = λ s. none;
  text = text_of;
  lines = λ bytes. [];
}

abbrev working : System
working = record {
  prints = true;
  makes_directory = true;
  makes_file = true;
  dumps = true;
  replaces = true;
  unlinks = true;
}

-- The disk is full, and the temporary file cannot be removed.
abbrev full : System
full = record working { dumps = false; unlinks = false }

abbrev output_path : String
output_path = "/run/scan.json"

abbrev clock : String
clock = "2026-01-01T00:00:00"

output_path_named : (output_path == "") ≡ false
unfolding text_dec
output_path_named = refl

trimmed : trim_slashes "http://localhost//" ≡ "http://localhost"
unfolding trim_slashes text_dec
trimmed = refl

main-IsAtomic_example :
    IsAtomic full
      (scan_value serve clock (trim_slashes "http://localhost//"))
      (some broken)
      (main serve clock full (some output_path) ("http://localhost//" ∷ []) (fresh (some broken)))
main-IsAtomic_example =
    main-IsAtomic serve clock "http://localhost//" output_path (some broken) output_path_named full

abbrev after_run : Disk × Ending
after_run = main serve clock working (some output_path) ("http://localhost//" ∷ []) (fresh none)

run_ends : after_run.1 ≡ returned
unfolding main text_dec
run_ends = refl

newer : (ltb_float one zero_float || eqb_float one zero_float) ≡ false
unfolding scale
newer = refl

main-scanner_result_example :
    (es : List Evidence) × (scanner_result library output_path null
        (changed one (parsed after_run.0.output))
        zero_float
      ≡ (one, ok es))
    × ((es ≢ [])
        ↔ IsOpen
            (serve (url_of (trim_slashes "http://localhost//") "1"))
            (serve (url_of (trim_slashes "http://localhost//") attack_value)))
    × All (IsReported clock) es
main-scanner_result_example =
    main-scanner_result library (λ s. refl) output_path null serve clock "http://localhost//" one
      zero_float working none output_path_named run_ends newer
