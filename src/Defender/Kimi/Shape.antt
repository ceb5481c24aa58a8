-- ===== src/Defender/Kimi/Shape.antt =====
-- What an analysis that passes the check has: the caller reads these keys without a further test.
use k3df.Base.{
  ◌⊎◌, ok_inj, ◌≤◌, ◌≡◌, refl, sym, ap, ◌∙◌, inl, inr, true, false, String, Option, none, some,
  List, [], ◌∷◌, length, take, arith, Bool-cases, All, Unique, text_dec, contains, if◌then◌else◌,
  ◌==◌, ok, bind-eq-ok, length-take-le,
}
use k3df.Json.{Value, null, str, arr, obj, Items, Fields, find, get, set, elements, items, hashable}
use k3df.Json.Laws.{find-set, elements-items}
use k3df.Defender.Kimi.{
  allowed_levels, list_fields, check_level, check_summary, in_range, check_confidence, first_ten,
  or_empty, trim_fields, check_analysis, validate_result,
}

-- The key holds a list of at most ten values.
abbrev pub HasShortList : Fields → String → Type 0
HasShortList d k = (vs : Items) × (find k d ≡ some (arr vs)) × (length (elements vs) ≤ 10)

pub record IsAnalysis (analysis : Fields) : Type 0 where
  pub level :
      (s : String) × (get "threat_level" analysis ≡ str s) × (contains allowed_levels s ≡ true)
  pub summary : (s : String) × (get "summary" analysis ≡ str s)
  pub confidence : in_range (get "confidence" analysis) ≡ true

abbrev pub IsResult : Fields → Type 0
IsResult d =
    ((analysis : Fields) × (get "analysis" d ≡ obj analysis) × IsAnalysis analysis)
    × All (HasShortList d) list_fields

first_ten-short :
    (v w : Value) → first_ten v ≡ ok w → (vs : Items) × (w ≡ arr vs) × (length (elements vs) ≤ 10)
unfolding first_ten
first_ten-short (arr vs) w h = (
  items (take 10 (elements vs)),
  sym (ok_inj h),
  rw (elements-items (take 10 (elements vs))) (length-take-le 10 (elements vs)),
)
first_ten-short null w h = cc
first_ten-short v w h = cc

-- A key that is not among the fields is left alone.
find-trim_fields :
    (ks : List String) (d e : Fields) (j : String)
    → contains ks j ≡ false
    → trim_fields ks d ≡ ok e
    → find j e ≡ find j d
unfolding trim_fields
find-trim_fields [] d e j n h = ap (find j) (sym (ok_inj h))
find-trim_fields (k ∷ ks) d e j n h =
    let (v, hv, h₁) = bind-eq-ok (first_ten (or_empty (find k d))) _ h in
    find-trim_fields ks (set k v d) e j (ground arith) h₁ ∙ find-set j k v d ∙ other v
  where
    other : (v : Value) → (if j == k then some v else find j d) ≡ find j d
    other v = ground arith

find-set_same : (k : String) (v : Value) (d : Fields) → find k (set k v d) ≡ some v
find-set_same k v d = ground (arith, find-set k k v d)

trim_fields-HasShortList :
    (ks : List String) (d e : Fields)
    → Unique ks
    → trim_fields ks d ≡ ok e
    → All (HasShortList e) ks
unfolding trim_fields
trim_fields-HasShortList [] d e u h = tt
trim_fields-HasShortList (k ∷ ks) d e u h =
    let (v, hv, h₁) = bind-eq-ok (first_ten (or_empty (find k d))) _ h in
    let (vs, is, few) = first_ten-short (or_empty (find k d)) v hv in
    let there = find-trim_fields ks (set k v d) e k u.0 h₁ ∙ find-set_same k v d in
    ((vs, there ∙ ap some is, few), trim_fields-HasShortList ks (set k v d) e u.1 h₁)

list_fields-Unique : Unique list_fields
unfolding text_dec
list_fields-Unique = ground arith

check_level-level :
    (v : Value) (r : Unit)
    → check_level v ≡ ok r
    → (s : String) × (v ≡ str s) × (contains allowed_levels s ≡ true)
unfolding check_level hashable
check_level-level (str s) r h = (s, refl, ground arith)
check_level-level null r h = cc
check_level-level v r h = cc

check_summary-summary : (v : Value) (r : Unit) → check_summary v ≡ ok r → (s : String) × (v ≡ str s)
unfolding check_summary
check_summary-summary (str s) r h = (s, refl)
check_summary-summary null r h = cc
check_summary-summary v r h = cc

check_confidence-range : (v : Value) (r : Unit) → check_confidence v ≡ ok r → in_range v ≡ true
check_confidence-range v r h = elim (Bool-cases (in_range v)) [
  | inl good ↦ good
  | inr bad ↦ absurd (ground arith)
]

check_analysis-IsAnalysis :
    (v : Value) (r : Unit)
    → check_analysis v ≡ ok r
    → (analysis : Fields) × (v ≡ obj analysis) × IsAnalysis analysis
unfolding check_analysis
check_analysis-IsAnalysis (obj a) r h =
    let (r₁, h₁, k₁) = bind-eq-ok (check_level (get "threat_level" a)) _ h in
    let (r₂, h₂, k₂) = bind-eq-ok (check_summary (get "summary" a)) _ k₁ in
    (
      a,
      refl,
      record {
        level = check_level-level (get "threat_level" a) r₁ h₁;
        summary = check_summary-summary (get "summary" a) r₂ h₂;
        confidence = check_confidence-range (get "confidence" a) r k₂;
      },
    )
check_analysis-IsAnalysis null r h = cc
check_analysis-IsAnalysis v r h = cc

-- An analysis that passes the check is a dict with a threat level among the four, a text summary
-- and a confidence that is a number of the unit interval; each of the seven list keys holds a
-- list of at most ten values; and every other key is as it was given.
pub validate_result-IsResult :
    (v : Value) (e : Fields) (j : String)
    → validate_result v ≡ ok e
    → IsResult e
      × ((d : Fields) × (v ≡ obj d) × ((contains list_fields j ≡ true) ⊎ (find j e ≡ find j d)))
unfolding validate_result text_dec
validate_result-IsResult (obj d) e j h =
    let (r, h₁, h₂) = bind-eq-ok (check_analysis (get "analysis" d)) _ h in
    let (a, is, good) = check_analysis-IsAnalysis (get "analysis" d) r h₁ in
    let same = find-trim_fields list_fields d e "analysis" refl h₂ in
    (
      (
        (a, ap get_found same ∙ is, good),
        trim_fields-HasShortList list_fields d e list_fields-Unique h₂,
      ),
      (d, refl, kept (λ n. find-trim_fields list_fields d e j n h₂)),
    )
  where
    get_found : Option Value → Value
    get_found o = elim o [ none ↦ null | some v ↦ v ]

    kept :
        (contains list_fields j ≡ false → find j e ≡ find j d)
        → (contains list_fields j ≡ true) ⊎ (find j e ≡ find j d)
    kept f = elim (Bool-cases (contains list_fields j)) [
      | inl trimmed ↦ inl trimmed
      | inr other ↦ inr (f other)
    ]
validate_result-IsResult null e j h = cc
validate_result-IsResult v e j h = cc
