-- ===== src/Defender/Collect.antt =====
-- defender/collectors.py: `EvidenceCollector.collect`, and how `_access_log` follows the log file.
-- The log is read as bytes; its lines and the evidence made of them stand in Sources.
pub mod Follow
pub mod Filter
pub mod Pattern
pub mod Url
pub mod Sources
pub mod Odd
pub mod Reported
pub mod Lines
use k3df.Base.{
  ℕ, zero, suc, ◌+◌, Bool, true, false, not, ◌&&◌, ◌||◌, String, Option, none, some, List, [], ◌∷◌,
  ◌++◌, ltb, eqb, length, if◌then◌else◌, Error, os_error,
}
use k3df.Json.{Value, truthy}
use k3df.Defender.Address.{Network}
use k3df.Defender.Evidence.{Evidence, ignored_source}

pub data CollectEvent : Type 0 where
  evidence_ignored : Value → String → CollectEvent
  evidence_taken : Evidence → CollectEvent

-- The counters of `state["metrics"]`, the events and the list that is returned; and whether the
-- next writes of the event file succeed.
pub record Collected : Type 0 where
  pub accepted : List Evidence
  pub evidence_count : ℕ
  pub ignored_evidence_count : ℕ
  pub events : List CollectEvent
  pub writes : List Bool

abbrev pub is_trusted : List Network → Evidence → Bool
is_trusted networks e = truthy e.related_source_ip && ignored_source e.related_source_ip networks

abbrev pub add_collected : CollectEvent → Collected → Collected
add_collected e s = record s { events = s.events ++ (e ∷ []) }

-- A call of `event`: a write that fails raises an `OSError`, and writes nothing.
abbrev pub write_collected : CollectEvent → List Bool → Collected → Collected × Option Error
write_collected e [] s = (add_collected e s, none)
write_collected e (true ∷ ws) s = (record (add_collected e s) { writes = ws }, none)
write_collected e (false ∷ ws) s = (record s { writes = ws }, some os_error)

abbrev pub ignore : Evidence → Collected → Collected × Option Error
ignore e s =
    write_collected (evidence_ignored e.related_source_ip e.evidence_id) s.writes
      (record s { ignored_evidence_count = suc s.ignored_evidence_count })

abbrev pub accept : Evidence → Collected → Collected × Option Error
accept e s =
    write_collected (evidence_taken e) s.writes
      (record s { accepted = s.accepted ++ (e ∷ []); evidence_count = suc s.evidence_count })

abbrev pub go_on :
    (Collected → Collected × Option Error) → Collected × Option Error → Collected × Option Error
go_on next (s, none) = next s
go_on next (s, some e) = (s, some e)

-- The loop of `collect` over the items of both sources.
unfoldable pub collect : List Network → List Evidence → Collected → Collected × Option Error
collect networks [] s = (s, none)
collect networks (e ∷ es) s =
    go_on (collect networks es) (if is_trusted networks e then ignore e s else accept e s)

-- What `_access_log` keeps between its calls in `state["runtime"]`.
pub record Runtime : Type 0 where
  pub access_log_offset : ℕ
  pub access_log_inode : Option ℕ

-- What the file system answers: `os.stat` gives an inode and a size, `open` the bytes.
pub data LogFile : Type 0 where
  no_stat : LogFile
  no_open : (inode size : ℕ) → LogFile
  readable : (inode size : ℕ) (content : List ℕ) → LogFile

abbrev pub other_inode : Option ℕ → ℕ → Bool
other_inode none inode = true
other_inode (some i) inode = not (eqb i inode)

-- Another file, or a file that is now shorter, is read from its start.
unfoldable pub rotate : ℕ → ℕ → Runtime → Runtime
rotate inode size r =
    if other_inode r.access_log_inode inode || ltb size r.access_log_offset
    then record { access_log_offset = 0; access_log_inode = some inode }
    else r

-- `seek` and what is read from there on.
abbrev pub drop : ℕ → List ℕ → List ℕ
drop zero xs = xs
drop (suc n) [] = []
drop (suc n) (x ∷ xs) = drop n xs

abbrev read_from : Runtime → List ℕ → Runtime × List ℕ
read_from r content =
    let text = drop r.access_log_offset content in
    (record r { access_log_offset = r.access_log_offset + length text }, text)

-- The bytes that one call reads, and what it keeps.
unfoldable pub follow : LogFile → Runtime → Runtime × List ℕ
follow no_stat r = (r, [])
follow (no_open inode size) r = (rotate inode size r, [])
follow (readable inode size content) r = read_from (rotate inode size r) content
