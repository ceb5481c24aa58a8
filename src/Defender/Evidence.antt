-- ===== src/Defender/Evidence.antt =====
-- The evidence items that defender/collectors.py and defender/service.py make, which have one set
-- of keys, and defender/collectors.py's aggregation of them by fingerprint.
pub mod Groups
use k3df.Base.{
  ℕ, zero, suc, ◌+◌, Bool, true, false, String, Option, none, some, List, [], ◌∷◌, ◌++◌, map, take,
  any, if◌then◌else◌, ◌==◌,
}
use k3df.Base.Int.{pos}
use k3df.Json.{Value, null, str, int, float, Fields, end, field, Float}
use k3df.Defender.Address.{Network, ip_address, in_network}

pub record Evidence : Type 0 where
  pub evidence_id : String
  pub fingerprint : String
  pub timestamp : Value
  pub source : String
  pub kind : String
  pub summary : String
  pub raw : Value
  pub related_endpoint : Value
  pub related_source_ip : Value
  pub related_incident_id : Value
  pub confidence : Float
  pub metadata : Value

-- The dict of an item, whose raw material stands under `raw_key`.
abbrev pub evidence_fields : String → Evidence → Fields
evidence_fields raw_key e = field "evidence_id" (str e.evidence_id) (
    field "fingerprint" (str e.fingerprint) (
      field "timestamp" e.timestamp (
        field "source" (str e.source) (
          field "type" (str e.kind) (
            field "summary" (str e.summary) (
              field raw_key e.raw (
                field "related_endpoint" e.related_endpoint (
                  field "related_source_ip" e.related_source_ip (
                    field "related_incident_id" e.related_incident_id (
                      field "confidence" (float e.confidence)
                        (field "metadata" e.metadata end)))))))))))

-- `ignored_source`: a text or a value that is no address is not ignored.
unfoldable pub ignored_source : Value → List Network → Bool
ignored_source ip networks = elim (ip_address ip) [
  | none ↦ false
  | some a ↦ any (in_network a) networks
]

-- An item of the batch: the first item of its fingerprint, with the three keys that are added.
pub record Bucket : Type 0 where
  pub item : Evidence
  pub count : ℕ
  pub first_seen : Value
  pub last_seen : Value

abbrev pub bucket : Evidence → Bucket
bucket e = record { item = e; count = 0; first_seen = e.timestamp; last_seen = e.timestamp }

abbrev pub count_in : Evidence → Bucket → Bucket
count_in e b = record b { count = suc b.count; last_seen = e.timestamp }

-- One round of the loop: `setdefault` and the two writes.
unfoldable pub group : Evidence → List Bucket → List Bucket
group e [] = count_in e (bucket e) ∷ []
group e (b ∷ bs) = if b.item.fingerprint == e.fingerprint then count_in e b ∷ bs else b ∷ group e bs

unfoldable pub grouped : List Bucket → List Evidence → List Bucket
grouped bs [] = bs
grouped bs (e ∷ es) = grouped (group e bs) es

-- `aggregate(evidence, limit=50)`
unfoldable pub aggregate : ℕ → List Evidence → List Bucket
aggregate limit es = take limit (grouped [] es)
