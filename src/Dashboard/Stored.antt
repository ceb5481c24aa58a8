-- ===== src/Dashboard/Stored.antt =====
-- How the dashboard reads the parts of a state that the defender has stored.
use k3df.Base.{
  ℕ, zero, suc, ◌+◌, ◌≡◌, refl, ap, ◌∙◌, Bool-cases, inl, inr, String, Option, none, some, List, [],
  ◌∷◌, map, length, take, ok, text_dec, ◌==◌,
}
use k3df.Json.{Value, arr, nil, Fields, find, get_or, slice, len_of}
use k3df.Json.Laws.{elements-items}
use k3df.Defender.Store.{entries, flag_value, flags_value}
use k3df.Defender.Graph.{Node, graph_value, node_value}
use k3df.Defender.Graph.RoundTrip.{fields_of}
use k3df.Defender.Flags.{Flag}
use k3df.Defender.Service.Updates.{category_of}
use k3df.Defender.Service.Context.{categories, list_value}
use k3df.Dashboard.Snapshot.{dicts_of, shown_nodes, shown_flags, exposure_total}
use k3df.Dashboard.Depths.{node_fields, dicts_of-map}

pub slice-list_value :
    (n : ℕ) (vs : List Value) → slice n (list_value vs) ≡ ok (list_value (take n vs))
slice-list_value n vs = rw (elements-items vs) refl

-- The number of entries of a category.
abbrev pub size_of : Option (List Value) → ℕ
size_of none = 0
size_of (some vs) = length vs

abbrev pub total : List String → List (String × List Value) → ℕ
total [] exposure = 0
total (k ∷ ks) exposure = size_of (category_of k exposure) + total ks exposure

len-list_value : (vs : List Value) → len_of (list_value vs) ≡ ok (length vs)
len-list_value vs = rw (elements-items vs) refl

abbrev listed : Option (List Value) → Option Value
listed none = none
listed (some vs) = some (list_value vs)

find-categories :
    (k : String) (exposure : List (String × List Value))
    → find k (entries (categories exposure)) ≡ listed (category_of k exposure)
unfolding find category_of
find-categories k [] = refl
find-categories k ((j, vs) ∷ rest) = elim (Bool-cases (k == j)) [
  | inl same ↦ rw same refl
  | inr other ↦ rw other (find-categories k rest)
]

len-listed :
    (o : Option (List Value))
    → len_of (elim (listed o) [ none ↦ arr nil | some v ↦ v ]) ≡ ok (size_of o)
len-listed none = refl
len-listed (some vs) = len-list_value vs

len-categories :
    (k : String) (exposure : List (String × List Value))
    → len_of (get_or k (arr nil) (entries (categories exposure)))
      ≡ ok (size_of (category_of k exposure))
len-categories k exposure =
    ap (λ o. len_of (elim o [ none ↦ arr nil | some v ↦ v ])) (find-categories k exposure)
    ∙ len-listed (category_of k exposure)

pub exposure_total-categories :
    (ks : List String) (exposure : List (String × List Value))
    → exposure_total ks (entries (categories exposure)) ≡ ok (total ks exposure)
unfolding exposure_total
exposure_total-categories [] exposure = refl
exposure_total-categories (k ∷ ks) exposure =
    rw (len-categories k exposure, exposure_total-categories ks exposure) refl

take-map : {A B : Type 0} (f : A → B) (n : ℕ) (xs : List A) → take n (map f xs) ≡ map f (take n xs)
take-map f zero xs = refl
take-map f (suc n) [] = refl
take-map f (suc n) (x ∷ xs) = ap (◌∷◌ (f x)) (take-map f n xs)

pub shown_nodes-stored :
    (ns : List Node) → shown_nodes (fields_of (graph_value ns)) ≡ ok (map node_fields (take 20 ns))
unfolding shown_nodes graph_value find text_dec
shown_nodes-stored ns =
    rw (elements-items (map node_value ns), dicts_of-map ns, take-map node_fields 20 ns) refl

abbrev pub flag_fields : Flag → Fields
flag_fields f = fields_of (flag_value f)

dicts_of-flags : (fs : List Flag) → dicts_of (map flag_value fs) ≡ map flag_fields fs
unfolding flag_value
dicts_of-flags [] = refl
dicts_of-flags (f ∷ fs) = ap (◌∷◌ (flag_fields f)) (dicts_of-flags fs)

pub shown_flags-stored :
    (fs : List Flag) → shown_flags (fields_of (flags_value fs)) ≡ ok (map flag_fields (take 3 fs))
unfolding shown_flags flags_value find text_dec
shown_flags-stored fs =
    rw (elements-items (map flag_value fs), dicts_of-flags fs, take-map flag_fields 3 fs) refl
