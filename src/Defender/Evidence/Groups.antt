-- ===== src/Defender/Evidence/Groups.antt =====
-- The groups of `aggregate` partition the evidence by fingerprint, in order of first appearance.
use k3df.Base.{
  ℕ, suc, ◌+◌, ◌≤◌, ◌≡◌, refl, ◌||◌, String, List, [], ◌∷◌, map, length, arith, Bool-cases,
  contains, Unique, if◌then◌else◌, ◌==◌, take_all, inl, inr,
}
use k3df.Defender.Evidence.{Evidence, Bucket, group, grouped, aggregate}

abbrev fingerprints : List Bucket → List String
fingerprints bs = map (λ b. b.item.fingerprint) bs

-- How many of the items have the fingerprint.
abbrev pub occurrences : String → List Evidence → ℕ
occurrences f [] = 0
occurrences f (e ∷ es) = if e.fingerprint == f then suc (occurrences f es) else occurrences f es

-- What the groups count for the fingerprint.
abbrev pub counted_as : String → List Bucket → ℕ
counted_as f [] = 0
counted_as f (b ∷ bs) =
    if b.item.fingerprint == f then b.count + counted_as f bs else counted_as f bs

abbrev pub total : List Bucket → ℕ
total [] = 0
total (b ∷ bs) = b.count + total bs

counted_as-group :
    (e : Evidence) (bs : List Bucket) (f : String)
    → counted_as f (group e bs)
      ≡ (if e.fingerprint == f then suc (counted_as f bs) else counted_as f bs)
unfolding group
counted_as-group e [] f = ground arith
counted_as-group e (b ∷ bs) f = ground (arith, counted_as-group e bs f)

counted_as-grouped :
    (bs : List Bucket) (es : List Evidence) (f : String)
    → counted_as f (grouped bs es) ≡ counted_as f bs + occurrences f es
unfolding grouped
counted_as-grouped bs [] f = omega arith
counted_as-grouped bs (e ∷ es) f =
    ground (arith, counted_as-grouped (group e bs) es f, counted_as-group e bs f)

total-group : (e : Evidence) (bs : List Bucket) → total (group e bs) ≡ suc (total bs)
unfolding group
total-group e [] = omega arith
total-group e (b ∷ bs) = ground (arith, total-group e bs)

total-grouped :
    (bs : List Bucket) (es : List Evidence) → total (grouped bs es) ≡ total bs + length es
unfolding grouped
total-grouped bs [] = omega arith
total-grouped bs (e ∷ es) = omega (arith, total-grouped (group e bs) es, total-group e bs)

contains-group :
    (e : Evidence) (bs : List Bucket) (f : String)
    → contains (fingerprints (group e bs)) f ≡ (f == e.fingerprint || contains (fingerprints bs) f)
unfolding group
contains-group e [] f = refl
contains-group e (b ∷ bs) f = ground (arith, contains-group e bs f)

Unique-group :
    (e : Evidence) (bs : List Bucket)
    → Unique (fingerprints bs)
    → Unique (fingerprints (group e bs))
unfolding group
Unique-group e [] u = (refl, tt)
Unique-group e (b ∷ bs) u = elim (Bool-cases (b.item.fingerprint == e.fingerprint)) [
  | inl same ↦ rw same u
  | inr differ ↦
      rw differ (ground (arith, contains-group e bs b.item.fingerprint), Unique-group e bs u.1)
]

Unique-grouped :
    (bs : List Bucket) (es : List Evidence)
    → Unique (fingerprints bs)
    → Unique (fingerprints (grouped bs es))
unfolding grouped
Unique-grouped bs [] u = u
Unique-grouped bs (e ∷ es) u = Unique-grouped (group e bs) es (Unique-group e bs u)

-- If the evidence has no more fingerprints than the limit, then for each fingerprint the batch
-- counts the items that have it, the counts add up to the number of items, and no fingerprint
-- stands twice.
pub aggregate-counts :
    (limit : ℕ) (es : List Evidence)
    → length (grouped [] es) ≤ limit
    → ((f : String) → counted_as f (aggregate limit es) ≡ occurrences f es)
      × (total (aggregate limit es) ≡ length es)
      × Unique (fingerprints (aggregate limit es))
unfolding aggregate
aggregate-counts limit es few = rw (take_all limit (grouped [] es) few) (
  (λ f. omega (arith, counted_as-grouped [] es f)),
  omega (arith, total-grouped [] es),
  Unique-grouped [] es tt,
)
