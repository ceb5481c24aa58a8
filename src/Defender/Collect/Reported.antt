-- ===== src/Defender/Collect/Reported.antt =====
-- What the defender makes of the document that the scanner has written.
use Prim.Native.String.append.{cons}
use k3df.Base.{
  ◌≡◌, ◌∙◌, sym, ℕ, codes, ◌≢◌, ◌↔◌, refl, ap, ◌⊎◌, inl, inr, Bool, true, false, ◌||◌, not, String,
  ◌<>◌, ◌==◌, Option, none, some, List, [], ◌∷◌, All, map, ok, Bool-cases, if◌then◌else◌, arith,
}
use k3df.Json.{
  Value, null, str, obj, arr, truthy, Float, ltb_float, eqb_float, find, set, get, get_or, nil,
}
use k3df.Scanner.{
  ScanResult, Response, Finding, finding, is_suspicious, scan_sql_injection, url_of, attack_value,
}
use k3df.Scanner.Detect.{IsOpen, scan_sql_injection_iff}
use k3df.Scanner.Report.{
  Content, Disk, System, Ending, returned, whole, scan_value, trim_slashes, main, parsed, report,
  finding_fields, findings_value, report,
}
use k3df.Scanner.Atomic.{fresh, main-IsAtomic}
use k3df.Defender.Evidence.{Evidence}
use k3df.Defender.Collect.Sources.{
  Library, changed, scanner_result, scanner_document, scanner_items, scanner_item,
}

no_codes : (c : ℕ) (cs : List ℕ) → c ∷ cs ≢ []
no_codes c cs h = cc

stamp_not_empty : (s : String) → s <> "Z" ≢ ""
stamp_not_empty String.[] h = no_codes _ _ (ap codes h)
stamp_not_empty (String.◌∷◌ c s) h = no_codes _ _ (ap codes (sym (cons c s "Z") ∙ h))

truthy_of_text : (s : String) → s ≢ "" → truthy (str s) ≡ true
unfolding truthy
truthy_of_text s h = ground (arith, h)

timestamp_of_report :
    (clock base_url : String) (s : ScanResult)
    → get "timestamp" (report clock base_url s) ≡ str (clock <> "Z")
unfolding set find k3df.Base.text_dec
timestamp_of_report clock base_url s = refl

findings_of_report :
    (clock base_url : String) (s : ScanResult)
    → get_or "findings" (arr nil) (report clock base_url s) ≡ findings_value s.findings
unfolding set find k3df.Base.text_dec
findings_of_report clock base_url s = refl

-- The evidence of a finding.
pub record IsReported (clock : String) (e : Evidence) : Type 0 where
  kind : e.kind ≡ "scanner_finding"
  summary : e.summary ≡ "SQL Injection at /customer"
  related_endpoint : e.related_endpoint ≡ str "/customer"
  timestamp : e.timestamp ≡ str (clock <> "Z")
  no_address : e.related_source_ip ≡ null

map_not_empty : {A B : Type 0} (f : A → B) (xs : List A) → (map f xs ≢ []) ↔ (xs ≢ [])
map_not_empty f [] = (λ h e. h refl, λ h e. h refl)
map_not_empty f (x ∷ xs) = (λ h e. cc, λ h e. cc)

module _ (l : Library) (reads : (s : String) → l.text (str s) ≡ s) (path : String)
    (now : Value) where
  abbrev item_of : Value → Finding → Evidence
  item_of t f = scanner_item l path t (finding_fields f)

  scanner_items-findings :
      (t : Value) (fs : List Finding)
      → scanner_items l path t (findings_value fs) ≡ ok (map (item_of t) fs)
  scanner_items-findings t [] = refl
  scanner_items-findings t (f ∷ fs) = rw (scanner_items-findings t fs) refl

  document-report :
      (clock base_url : String) (s : ScanResult)
      → scanner_document l path now (obj (report clock base_url s))
        ≡ ok (map (item_of (str (clock <> "Z"))) s.findings)
  document-report clock base_url s =
      rw
        (
          timestamp_of_report clock base_url s,
          findings_of_report clock base_url s,
          truthy_of_text (clock <> "Z") (stamp_not_empty clock),
        )
        (scanner_items-findings _ s.findings)

  IsReported-item :
      (clock : String) (normal attack : Response)
      → IsReported clock (item_of (str (clock <> "Z")) (finding normal attack))
  unfolding find k3df.Base.text_dec
  IsReported-item clock normal attack = record {
    kind = refl;
    summary = rw (reads "SQL Injection", reads "/customer") refl;
    related_endpoint = refl;
    timestamp = refl;
    no_address = refl;
  }

  AreReported-items :
      (clock : String) (normal attack : Response) (b : Bool)
      → All
          (IsReported clock)
          (map (item_of (str (clock <> "Z"))) (if b then finding normal attack ∷ [] else []))
  AreReported-items clock normal attack true = (IsReported-item clock normal attack, tt)
  AreReported-items clock normal attack false = tt

  each-IsReported :
      (request : String → Response) (clock base_url : String)
      → All
          (IsReported clock)
          (map (item_of (str (clock <> "Z"))) (scan_sql_injection request base_url).findings)
  unfolding scan_sql_injection
  each-IsReported request clock base_url =
      let normal = request (url_of base_url "1") in
      let attack = request (url_of base_url attack_value) in
      AreReported-items clock normal attack (is_suspicious normal attack)

  module _ (request : String → Response) (clock base_url : String) (time mtime : Float) (o : System)
      (before : Option Content) where
    abbrev after : Disk × Ending
    after = main request clock o (some path) (base_url ∷ []) (fresh before)

    -- What the defender reads of the output.
    abbrev Reads : List Evidence → Type 0
    Reads es =
        scanner_result l path now (changed time (parsed after.0.output)) mtime ≡ (time, ok es)

    -- If the scanner is run for an address with a named output and returns, then a defender
    -- that has not read the changed file yet, and whose text of a text is that text, reads
    -- pieces of evidence from it, each of an SQL injection at /customer with the time of the
    -- scanner's run and no address; there are some exactly if the server, asked at the
    -- address without its last slashes, answers both requests with the status 200, twice the
    -- length of the attack response is more than three times that of the normal one, and the
    -- attack response contains the quoted word customers.
    pub main-scanner_result :
        (path == "") ≡ false
        → after.1 ≡ returned
        → (ltb_float time mtime || eqb_float time mtime) ≡ false
        → (es : List Evidence) × Reads es
          × ((es ≢ [])
              ↔ IsOpen
                  (request (url_of (trim_slashes base_url) "1"))
                  (request (url_of (trim_slashes base_url) attack_value)))
          × All (IsReported clock) es
    unfolding scanner_result
    main-scanner_result named done newer =
        let url = trim_slashes base_url in
        let fs = (scan_sql_injection request url).findings in
        let shows = map_not_empty (item_of (str (clock <> "Z"))) fs in
        let found = scan_sql_injection_iff request url in
        let new : after.0.output ≡ some (whole (scan_value request clock url)) =
          elim (main-IsAtomic request clock base_url path before named o).0 [
            | inl (e, w) ↦ w
            | inr (other, w) ↦ absurd (other done)
          ] in
        (
          map (item_of (str (clock <> "Z"))) fs,
          rw (newer, new, document-report clock url (scan_sql_injection request url)) refl,
          (λ h. found.0 (shows.0 h), λ h. shows.1 (found.1 h)),
          each-IsReported request clock url,
        )
