-- ===== src/Defender/Flags.antt =====
-- defender/capability_graph.py: the flag objectives and the evidence on them.
pub mod Vouched
pub mod Confirm
pub mod Stored
pub mod RoundTrip
use k3df.Base.{
  ℕ, suc, Bool, true, false, not, ◌&&◌, ◌||◌, String, Option, none, some, List, [], ◌∷◌, ◌++◌, map,
  contains, if◌then◌else◌, ◌==◌, Result, ok, raised, type_error, ◌>>=◌, traverse,
}
use k3df.Json.{Value, null, str, arr, obj, Fields, end, get, elements, hashable, value_eq}
use k3df.Defender.Graph.{
  NodeStatus, not_observed, suspected, confirmed, member, read_status, keyed, known_get, stored_ids,
  stored_text,
}
use k3df.Defender.Graph.Observe.{metadata_of}

pub data Submission : Type 0 where
  not_submitted detected accepted rejected : Submission

pub data Provenance : Type 0 where
  defender_estimate referee : Provenance

pub record Flag : Type 0 where
  pub id : String
  pub label : String
  pub acquisition_status : NodeStatus
  pub submission_status : Submission
  pub evidence_ids : List String
  pub updated_at : Value
  pub provenance : Provenance

abbrev pub read_submission : String → Option Submission
read_submission s =
    if s == "not_submitted"
    then some not_submitted
    else if s == "detected"
    then some detected
    else if s == "accepted"
    then some accepted
    else if s == "rejected"
    then some rejected
    else none

abbrev pub read_provenance : String → Option Provenance
read_provenance s =
    if s == "defender_estimate"
    then some defender_estimate
    else if s == "referee"
    then some referee
    else none

abbrev flag : String → String → Flag
flag id label = record {
  id = id;
  label = label;
  acquisition_status = not_observed;
  submission_status = not_submitted;
  evidence_ids = [];
  updated_at = null;
  provenance = defender_estimate;
}

abbrev pub default_flag_objectives : List Flag
default_flag_objectives =
    flag "flag_1" "Flag 1" ∷ flag "flag_2" "Flag 2" ∷ flag "flag_3" "Flag 3" ∷ []

-- `{flag.get("id"): flag …}`: unlike a node of the graph, a flag needs no truthy id here.
known_flags : List Value → Result (List (String × Fields))
unfolding keyed
known_flags [] = ok []
known_flags (obj d ∷ vs) = keyed (get "id" d) d (known_flags vs)
known_flags (_ ∷ vs) = known_flags vs

abbrev stored_or : {A : Type 0} → Option A → A → A
stored_or (some a) default = a
stored_or none default = default

-- One round of the loop: what a stored flag overrides.
merge_flag : Flag → Fields → Result Flag
merge_flag f stored = do
  acquisition ← member read_status (get "acquisition_status" stored)
  submission ← member read_submission (get "submission_status" stored)
  provenance ← member read_provenance (get "provenance" stored)
  ok (record f {
    acquisition_status = stored_or acquisition f.acquisition_status;
    submission_status = stored_or submission f.submission_status;
    evidence_ids = stored_ids (get "evidence_ids" stored) f.evidence_ids;
    updated_at = stored_text (get "updated_at" stored) f.updated_at;
    provenance = stored_or provenance f.provenance;
  })

merge_flags : List Value → Result (List Flag)
unfolding merge_flag known_flags known_get
merge_flags stored = do
  known ← known_flags stored
  traverse (λ f. merge_flag f (known_get f.id known end)) default_flag_objectives

abbrev flags_of : Value → Result (List Flag)
flags_of (arr vs) = merge_flags (elements vs)
flags_of _ = ok default_flag_objectives

unfoldable pub normalize_flags : Value → Result (List Flag)
unfolding merge_flags
normalize_flags (obj d) = flags_of (get "flags" d)
normalize_flags _ = ok default_flag_objectives

unfoldable pub find_flag : Value → List Flag → Option Flag
find_flag id [] = none
find_flag id (f ∷ fs) = if value_eq (str f.id) id then some f else find_flag id fs

unfoldable pub set_flag : Value → Flag → List Flag → List Flag
set_flag id g [] = []
set_flag id g (f ∷ fs) = if value_eq (str f.id) id then g ∷ fs else f ∷ set_flag id g fs

abbrev pub is_text : Value → String → Bool
is_text v s = value_eq v (str s)

-- Detection alone is never confirmation.
abbrev pub claimed : Fields → NodeStatus → NodeStatus
claimed metadata confirmed =
    if not (is_text (get "flag_provenance" metadata) "referee") then suspected else confirmed
claimed metadata s = s

abbrev pub raise_status : NodeStatus → NodeStatus → NodeStatus
raise_status confirmed old = confirmed
raise_status new not_observed = new
raise_status new old = old

-- `if acquisition in NODE_STATUS:`
unfoldable pub acquire : Fields → Option NodeStatus → Flag → Flag
acquire metadata none f = f
acquire metadata (some s) f = record f {
  acquisition_status = raise_status (claimed metadata s) f.acquisition_status;
}

abbrev pub suspect : NodeStatus → NodeStatus
suspect not_observed = suspected
suspect s = s

-- `if submission in FLAG_SUBMISSION_STATUS:`
unfoldable pub submitted : Option Submission → Flag → Flag
submitted none f = f
submitted (some not_submitted) f = record f { submission_status = not_submitted }
submitted (some accepted) f = record f {
  submission_status = accepted;
  acquisition_status = confirmed;
  provenance = referee;
}
submitted (some detected) f = record f {
  submission_status = detected;
  acquisition_status = suspect f.acquisition_status;
}
submitted (some rejected) f = record f { submission_status = rejected; provenance = referee }

-- `flag["evidence_ids"].append(evidence_id)` and the new time.
unfoldable pub append_evidence : String → Value → Flag → Flag
append_evidence e timestamp f = record f {
  evidence_ids = f.evidence_ids ++ (e ∷ []);
  updated_at = timestamp;
}

abbrev pub revise : Fields → String → Value → Option NodeStatus → Option Submission → Flag → Flag
revise metadata e timestamp acquisition submission f =
    append_evidence e timestamp (submitted submission (acquire metadata acquisition f))

-- From the lookup of the flag on.
unfoldable pub update_flag : List Flag → Fields → Value → Value → Option Flag → Result (List Flag)
update_flag flags metadata timestamp (str e) (some f) =
    if contains f.evidence_ids e
    then ok flags
    else (member read_status (get "flag_acquisition_status" metadata) >>= λ acquisition.
        member read_submission (get "flag_submission_status" metadata) >>= λ submission. ok (
          set_flag (get "flag_id" metadata) (revise metadata e timestamp acquisition submission f)
            flags))
update_flag flags metadata timestamp _ _ = ok flags

unfoldable pub apply_flag_evidence : Value → Fields → Result (List Flag)
apply_flag_evidence objectives evidence = do
  flags ← normalize_flags objectives
  metadata ← metadata_of (get "metadata" evidence)
  update_flag flags metadata (get "timestamp" evidence) (get "evidence_id" evidence)
      (find_flag (get "flag_id" metadata) flags)
