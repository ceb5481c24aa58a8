-- ===== src/Defender/Flags/Stored.antt =====
-- The flag objectives that the state holds are read again without an exception.
use k3df.Base.{◌≡◌, refl, String, none, some, List, [], ◌∷◌, All, text_dec, map, ok}
use k3df.Json.{Value, null, str, Fields, end, find, get, hashable, value_eq}
use k3df.Json.Laws.{elements-items}
use k3df.Defender.Graph.{member, keyed}
use k3df.Defender.Graph.RoundTrip.{fields_of, read_status-status_text}
use k3df.Defender.Graph.Observe.{metadata_of}
use k3df.Defender.Graph.Stored.{Returns, Returns-bind, traverse-Returns, known_get-All}
use k3df.Defender.Flags.{
  Flag, Submission, not_submitted, detected, accepted, rejected, Provenance, defender_estimate,
  referee, read_submission, read_provenance, default_flag_objectives, normalize_flags, known_flags,
  merge_flag, merge_flags, find_flag, update_flag, apply_flag_evidence,
}
use k3df.Defender.Store.{flag_value, flags_value, submission_text, provenance_text}

abbrev Merges : Fields → Type 0
Merges d = (f : Flag) → Returns (merge_flag f d)

end-Merges : Merges end
unfolding merge_flag find member hashable
end-Merges f = (_, refl)

pub read_submission-submission_text :
    (s : Submission) → read_submission (submission_text s) ≡ some s
unfolding text_dec
read_submission-submission_text not_submitted = refl
read_submission-submission_text detected = refl
read_submission-submission_text accepted = refl
read_submission-submission_text rejected = refl

pub read_provenance-provenance_text :
    (p : Provenance) → read_provenance (provenance_text p) ≡ some p
unfolding text_dec
read_provenance-provenance_text defender_estimate = refl
read_provenance-provenance_text referee = refl

stored-Merges : (g : Flag) → Merges (fields_of (flag_value g))
unfolding merge_flag flag_value find text_dec member
stored-Merges g f =
    rw
      (
        read_status-status_text g.acquisition_status,
        read_submission-submission_text g.submission_status,
        read_provenance-provenance_text g.provenance,
      )
      (_, refl)

known_flags-Merges :
    (fs : List Flag)
    → (known : List (String × Fields)) × (known_flags (map flag_value fs) ≡ ok known)
      × All (λ kd. Merges kd.1) known
unfolding known_flags flag_value find text_dec keyed
known_flags-Merges [] = ([], refl, tt)
known_flags-Merges (f ∷ fs) =
    let (known, e, h) = known_flags-Merges fs in
    rw e ((f.id, fields_of (flag_value f)) ∷ known, refl, (stored-Merges f, h))

normalize_flags-Returns : (fs : List Flag) → Returns (normalize_flags (flags_value fs))
unfolding normalize_flags merge_flags flags_value find text_dec
normalize_flags-Returns fs =
    let (known, e, h) = known_flags-Merges fs in
    rw (elements-items (map flag_value fs), e)
      (traverse-Returns _ default_flag_objectives
        (λ f. known_get-All Merges f.id known end end-Merges h f))

find_flag-null : (fs : List Flag) → find_flag null fs ≡ none
unfolding find_flag value_eq
find_flag-null [] = refl
find_flag-null (f ∷ fs) = find_flag-null fs

update_flag-none :
    (fs : List Flag) (metadata : Fields) (t e : Value) → update_flag fs metadata t e none ≡ ok fs
unfolding update_flag
update_flag-none fs metadata t (str e) = refl
update_flag-none fs metadata t null = refl
update_flag-none fs metadata t e = refl

-- Evidence whose metadata names no flag leaves the flags that the state holds, and raises nothing.
pub apply_flag_evidence-Returns :
    (fs : List Flag) (evidence metadata : Fields)
    → metadata_of (get "metadata" evidence) ≡ ok metadata
    → get "flag_id" metadata ≡ null
    → Returns (apply_flag_evidence (flags_value fs) evidence)
unfolding apply_flag_evidence
apply_flag_evidence-Returns fs evidence metadata hm none_named =
    Returns-bind (normalize_flags (flags_value fs)) _ (normalize_flags-Returns fs) (λ flags. rw hm (
      rw (none_named, find_flag-null flags)
        (
          flags,
          update_flag-none flags metadata (get "timestamp" evidence) (get "evidence_id" evidence),
        )))
