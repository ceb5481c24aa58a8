-- ===== src/Scanner/Report.antt =====
-- scanner/scanner.py: `main`, the document and the file that it is written to. What the operating
-- system does at each call is an argument. JSON that was written whole is read as the same value.
use Prim.Native.Char.{code}
use k3df.Base.{
  ℕ, Bool, ◌&&◌, String, ◌<>◌, ◌==◌, Option, none, some, List, [], ◌∷◌, map, eqb, if◌then◌else◌,
}
use k3df.Base.Int.{pos}
use k3df.Json.{Value, null, int, str, arr, obj, Fields, end, field, set, items}
use k3df.Scanner.{Response, Probe, Finding, ScanResult, scan_sql_injection}

abbrev status_value : Option ℕ → Value
status_value none = null
status_value (some n) = int (pos n)

abbrev pub probe_value : Probe → Value
probe_value p = obj (
    field "url" (str p.url) (
      field "status" (status_value p.status)
        (field "response_length" (int (pos p.response_length)) end)))

abbrev pub finding_fields : Finding → Fields
finding_fields f = field "type" (str f.kind) (
    field "endpoint" (str f.endpoint) (
      field "parameter" (str f.parameter) (
        field "severity" (str f.severity) (
          field "evidence"
            (obj (
              field "normal_response_length" (int (pos f.normal_response_length)) (
                field "attack_response_length" (int (pos f.attack_response_length))
                  (field "payload" (str f.payload) end))))
            end))))

abbrev pub findings_value : List Finding → Value
findings_value fs = arr (items (map (λ f. obj (finding_fields f)) fs))

abbrev pub scan_fields : ScanResult → Fields
scan_fields s = field "normal_request" (probe_value s.normal_request) (
    field "test_request" (probe_value s.test_request)
      (field "findings" (findings_value s.findings) end))

-- The document for a clock's text, an address and the result of the scan.
abbrev pub report : String → String → ScanResult → Fields
report clock base_url s = set "findings" (findings_value s.findings) (
    set "checks" (obj (scan_fields s)) (
      field "scanner" (str "K3DF Scanner") (
        field "version" (str "0.1") (
          field "timestamp" (str (clock <> "Z"))
            (field "target" (str base_url) (field "findings" (arr (items [])) end))))))

-- `rstrip("/")`
unfoldable pub trim_slashes : String → String
trim_slashes String.[] = String.[]
trim_slashes (String.◌∷◌ c s) =
    let rest = trim_slashes s in
    if eqb (code c) b'/' && rest == String.[] then String.[] else String.◌∷◌ c rest

-- A file that holds a document, or what was written of one.
pub data Content : Type 0 where
  whole : Value → Content
  broken : Content

-- The file at the output path, and the temporary file of this run.
pub record Disk : Type 0 where
  pub output : Option Content
  pub temporary : Option Content

-- Whether the calls of the run succeed; where one does not, an exception leaves it.
pub record System : Type 0 where
  pub prints : Bool
  pub makes_directory : Bool
  pub makes_file : Bool
  pub dumps : Bool
  pub replaces : Bool
  pub unlinks : Bool

-- `main` returns, ends with an exit status, or an exception leaves it.
pub data Ending : Type 0 where
  returned : Ending
  exited : ℕ → Ending
  stopped : Ending

-- `json.dump`, `flush` and `fsync`
abbrev pub dump : System → Value → Disk → Disk × Ending
dump o v d =
    if o.dumps
    then (record d { temporary = some (whole v) }, returned)
    else (record d { temporary = some broken }, stopped)

-- `os.replace`, unless the dump has raised.
abbrev pub replace : System → Disk × Ending → Disk × Ending
replace o (d, returned) =
    if o.replaces
    then (record { output = d.temporary; temporary = none }, returned)
    else (d, stopped)
replace o (d, e) = (d, e)

-- The `finally` block.
abbrev pub cleanup : System → Disk × Ending → Disk × Ending
cleanup o (d, e) = elim d.temporary [
  | none ↦ (d, e)
  | some c ↦ if o.unlinks then (record d { temporary = none }, e) else (d, stopped)
]

abbrev pub write_report : System → Value → Disk → Disk × Ending
write_report o v d =
    if o.makes_directory && o.makes_file
    then cleanup o (replace o (dump o v (record d { temporary = some broken })))
    else (d, stopped)

-- An empty path counts as none.
abbrev pub save_report : System → Option String → Value → Disk → Disk × Ending
save_report o none v d = (d, returned)
save_report o (some path) v d = if path == "" then (d, returned) else write_report o v d

abbrev pub scan_value : (String → Response) → String → String → Value
scan_value request clock base_url =
    obj (report clock base_url (scan_sql_injection request base_url))

-- The arguments of the program are without its name.
unfoldable pub main :
    (String → Response) → String → System → Option String → List String → Disk → Disk × Ending
main request clock o path (base_url ∷ []) d =
    if o.prints
    then save_report o path (scan_value request clock (trim_slashes base_url)) d
    else (d, stopped)
main request clock o path _ d = (d, exited 1)

-- The document that reading and parsing the output gives.
abbrev pub parsed : Option Content → Option Value
parsed (some (whole v)) = some v
parsed _ = none
