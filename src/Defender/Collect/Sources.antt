-- ===== src/Defender/Collect/Sources.antt =====
-- defender/collectors.py: the items of `_access_log` and `_scanner_result`.
use Prim.Native.Char.{code}
use Prim.Native.String.{String}
use k3df.Base.{
  ℕ, ◌+◌, ◌*◌, ◌^◌, Bool, ◌||◌, Option, none, some, List, [], ◌∷◌, ◌++◌, map, if◌then◌else◌, ◌==◌,
  ◌<>◌, Result, ok, raised, type_error, attribute_error, ◌>>=◌, traverse,
}
use k3df.Base.Int.{pos}
use k3df.Json.{
  Value, null, int, str, arr, obj, nil, Fields, end, field, find, get, get_or, elements, items,
  Float, finite, ltb_float, eqb_float,
}
use k3df.Text.{strip}
use k3df.Referee.{sorted}
use k3df.Defender.Config.{Config}
use k3df.Defender.Evidence.{Evidence}
use k3df.Defender.Graph.Observe.{or_value}
use k3df.Defender.Collect.{Runtime, LogFile, follow}
use k3df.Defender.Collect.Pattern.{Entry, read_line}
use k3df.Defender.Collect.Url.{Url, urlsplit, query_names}

-- What the collector uses of Python's library: decimal digits, the further checks of a netloc,
-- percent escapes, the first 24 digits of SHA-256, a log's date as ISO text in UTC (none for a
-- `ValueError`), `str` of a value, and the lines of the log's bytes.
pub record Library : Type 0 where
  pub digit : ℕ → Option ℕ
  pub checks : String → Bool
  pub unquote : String → String
  pub digest : String → String
  pub date : String → Option String
  pub text : Value → String
  pub lines : List ℕ → List String

-- What the file system has at the path of the scanner's result: the time of its last change, and
-- the document unless reading or parsing it fails.
pub data ScanFile : Type 0 where
  no_time : ScanFile
  changed : Float → Option Value → ScanFile

abbrev pub join : String → List String → String
join sep [] = ""
join sep (s ∷ []) = s
join sep (s ∷ t ∷ ts) = s <> sep <> join sep (t ∷ ts)

-- The doubles nearest to 0.7 and to 0.95.
abbrev access_confidence : Float
access_confidence = finite (pos (6_305_039_478_318_694 * 2 ^ 1021))

abbrev scanner_confidence : Float
scanner_confidence = finite (pos (8_556_839_292_003_942 * 2 ^ 1021))

module _ (l : Library) where
  abbrev fingerprint_of : List String → String
  fingerprint_of parts = l.digest (join "|" parts)

  abbrev timestamp : Value → String → Value
  timestamp now time = elim (l.date time) [ none ↦ now | some t ↦ str t ]

  -- `int` of the three digits.
  abbrev status_number : ℕ → String → ℕ
  status_number n String.[] = n
  status_number n (String.◌∷◌ c s) =
      status_number (n * 10 + elim (l.digit (code c)) [ none ↦ 0 | some d ↦ d ]) s

  abbrev pub access_metadata : Entry → List String → Fields
  access_metadata e names = field "method" (str e.method) (
      field "status" (int (pos (status_number 0 e.status)))
        (field "parameter_names" (arr (items (map str names))) (field "target" (str e.target) end)))

  abbrev pub access_item : String → Value → String → Entry → Url → Evidence
  access_item path now line e url =
      let names = sorted (query_names l.unquote url.query) in
      record {
        evidence_id = "EV-" <> fingerprint_of (strip line ∷ []);
        fingerprint =
            fingerprint_of
              ("nginx_access" ∷ e.ip ∷ e.method ∷ url.path ∷ join "," names ∷ e.status ∷ []);
        timestamp = timestamp now e.time;
        source = "nginx_access_log";
        kind = "http_request";
        summary = e.method <> " " <> url.path <> " -> " <> e.status;
        raw = str path;
        related_endpoint = str url.path;
        related_source_ip = str e.ip;
        related_incident_id = null;
        confidence = access_confidence;
        metadata = obj (access_metadata e names);
      }

  abbrev pub add_access :
      String → Value → String → Option Entry → Result (List Evidence) → Result (List Evidence)
  add_access path now line none rest = rest
  add_access path now line (some e) rest =
      urlsplit l.checks e.target >>= λ url. rest >>= λ es. ok (access_item path now line e url ∷ es)

  -- The loop over the lines.
  unfoldable pub access_items : String → Value → List String → Result (List Evidence)
  access_items path now [] = ok []
  access_items path now (line ∷ lines) =
      add_access path now line (read_line l.digit line) (access_items path now lines)

  -- `_access_log`: the offset is kept also when a line raises.
  unfoldable pub access_log : String → Value → LogFile → Runtime → Runtime × Result (List Evidence)
  access_log path now log r =
      let (r', bytes) = follow log r in (r', access_items path now (l.lines bytes))

  abbrev text_or : String → String → Fields → String
  text_or k default d = elim (find k d) [ none ↦ default | some v ↦ l.text v ]

  abbrev scanner_fingerprint : Fields → String
  scanner_fingerprint d = fingerprint_of (
      "scanner"
      ∷ l.text (get "type" d)
      ∷ l.text (get "endpoint" d)
      ∷ l.text (get "parameter" d)
      ∷ [])

  abbrev pub scanner_item : String → Value → Fields → Evidence
  scanner_item path time d = record {
    evidence_id = "EV-" <> scanner_fingerprint d;
    fingerprint = scanner_fingerprint d;
    timestamp = time;
    source = "scanner_result";
    kind = "scanner_finding";
    summary = text_or "type" "finding" d <> " at " <> text_or "endpoint" "unknown" d;
    raw = str path;
    related_endpoint = get "endpoint" d;
    related_source_ip = null;
    related_incident_id = null;
    confidence = scanner_confidence;
    metadata = obj d;
  }

  abbrev add_finding : String → Value → Value → Result Evidence
  add_finding path time (obj d) = ok (scanner_item path time d)
  add_finding path time _ = raised attribute_error

  -- The loop over `findings`; a text or a dict gives texts, which have no `get`.
  abbrev pub scanner_items : String → Value → Value → Result (List Evidence)
  scanner_items path time (arr vs) = traverse (add_finding path time) (elements vs)
  scanner_items path time (str s) = if s == "" then ok [] else raised attribute_error
  scanner_items path time (obj end) = ok []
  scanner_items path time (obj (field _ _ _)) = raised attribute_error
  scanner_items path time _ = raised type_error

  abbrev pub scanner_document : String → Value → Value → Result (List Evidence)
  scanner_document path now (obj d) =
      scanner_items path (or_value (get "timestamp" d) now) (get_or "findings" (arr nil) d)
  scanner_document path now _ = raised attribute_error

  unfoldable pub scanner_result : String → Value → ScanFile → Float → Float × Result (List Evidence)
  scanner_result path now no_time mtime = (mtime, ok [])
  scanner_result path now (changed time content) mtime =
      if ltb_float time mtime || eqb_float time mtime
      then (mtime, ok [])
      else elim content [ none ↦ (mtime, ok []) | some v ↦ (time, scanner_document path now v) ]

  abbrev pub after_access :
      Runtime
      → Float
      → Result (List Evidence)
      → Float × Result (List Evidence)
      → Runtime × Float × Result (List Evidence)
  after_access r mtime (raised e) scan = (r, mtime, raised e)
  after_access r mtime (ok es) (mtime', scan) = (r, mtime', scan >>= λ found. ok (es ++ found))

  -- `self._access_log(state) + self._scanner_result(state)`
  unfoldable pub read_sources :
      Config
      → Value
      → LogFile
      → ScanFile
      → Runtime
      → Float
      → Runtime × Float × Result (List Evidence)
  unfolding access_log scanner_result
  read_sources c now log scan r mtime =
      let (r', access) = access_log c.access_log_path now log r in
      after_access r' mtime access (scanner_result c.scanner_result_path now scan mtime)
