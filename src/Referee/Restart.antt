-- ===== src/Referee/Restart.antt =====
-- A restart reads back what the last write saved: the accepted set and the attempts.
use k3df.Base.{
  Within-of_contains, contains_of_Within, ℕ, suc, ◌≡◌, refl, ◌∙◌, ap, true, false, ◌||◌, String,
  List, [], ◌∷◌, map, length, arith, contains, Unique, Within, ok, ◌==◌, text_dec,
}
use k3df.Json.{Items, int, str, arr, elements, items, find}
use k3df.Base.Int.{pos}
use k3df.Json.Laws.{elements-items}
use k3df.Referee.Files.{ready}
use k3df.Referee.State.{
  Referee, document, saved, sorted, insert_sorted, set_of, all_known, load, load_fields, flag_ids,
}
use k3df.Referee.Valid.{IsValid}

contains-insert_sorted :
    (x a : String) (ys : List String) → contains (insert_sorted x ys) a ≡ (a == x || contains ys a)
unfolding insert_sorted
contains-insert_sorted x a [] = refl
contains-insert_sorted x a (y ∷ ys) = ground (arith, contains-insert_sorted x a ys)

-- Sorting keeps the set.
pub contains-sorted : (xs : List String) (a : String) → contains (sorted xs) a ≡ contains xs a
unfolding sorted
contains-sorted [] a = refl
contains-sorted (x ∷ xs) a =
    ground (arith, contains-insert_sorted x a (sorted xs), contains-sorted xs a)

length-insert_sorted :
    (x : String) (ys : List String) → length (insert_sorted x ys) ≡ suc (length ys)
unfolding insert_sorted
length-insert_sorted x [] = refl
length-insert_sorted x (y ∷ ys) = ground (arith, length-insert_sorted x ys)

length-sorted : (xs : List String) → length (sorted xs) ≡ length xs
unfolding sorted
length-sorted [] = refl
length-sorted (x ∷ xs) = length-insert_sorted x (sorted xs) ∙ ap suc (length-sorted xs)

Unique-insert_sorted :
    (x : String) (ys : List String)
    → Unique ys
    → contains ys x ≡ false
    → Unique (insert_sorted x ys)
unfolding insert_sorted
Unique-insert_sorted x [] u n = (refl, tt)
Unique-insert_sorted x (y ∷ ys) u n =
    ground (arith, Unique-insert_sorted x ys u.1, contains-insert_sorted x y ys)

Unique-sorted : (xs : List String) → Unique xs → Unique (sorted xs)
unfolding sorted
Unique-sorted [] u = tt
Unique-sorted (x ∷ xs) u =
    Unique-insert_sorted x (sorted xs) (Unique-sorted xs u.1) (contains-sorted xs x ∙ u.0)

set_of-str : (xs : List String) → Unique xs → set_of (map str xs) ≡ xs
unfolding set_of
set_of-str [] u = refl
set_of-str (x ∷ xs) u = rw (set_of-str xs u.1, u.0)

all_known-str : (ids xs : List String) → Within ids xs → all_known ids (map str xs) ≡ ok true
unfolding all_known
all_known-str ids [] h = refl
all_known-str ids (x ∷ xs) h = rw (h.0) (all_known-str ids xs h.1)

Within-sorted : (ids xs : List String) → Within ids xs → Within ids (sorted xs)
Within-sorted ids xs h =
    Within-of_contains ids (sorted xs)
      (λ a m. contains_of_Within ids xs a h (rw (contains-sorted xs a) at m))

load_fields-ready :
    (ids : List String) (vs : Items) (n : ℕ)
    → all_known ids (elements vs) ≡ ok true
    → load_fields ids (arr vs) (int (pos n)) ≡ ready (set_of (elements vs), n)
unfolding load_fields
load_fields-ready ids vs n e = ground arith

load_fields-sorted :
    (r : Referee)
    → IsValid r
    → load_fields
        (flag_ids r.flags)
        (arr (items (map str (sorted r.accepted))))
        (int (pos r.submission_attempts))
      ≡ ready (sorted r.accepted, r.submission_attempts)
load_fields-sorted r v =
    let e = elements-items (map str (sorted r.accepted)) in
    load_fields-ready (flag_ids r.flags) _ _ (
      ap (all_known (flag_ids r.flags)) e
      ∙ all_known-str (flag_ids r.flags) (sorted r.accepted)
          (Within-sorted (flag_ids r.flags) r.accepted v.accepted_known))
    ∙ ap (λ s. ready (s, r.submission_attempts))
        (ap set_of e ∙ set_of-str (sorted r.accepted) (Unique-sorted r.accepted v.accepted_unique))

load-saved-sorted :
    (now : String) (r : Referee)
    → IsValid r
    → load (flag_ids r.flags) (document (saved now r))
      ≡ ready (sorted r.accepted, r.submission_attempts)
unfolding load saved find text_dec
load-saved-sorted now r v = load_fields-sorted r v

-- What the referee saves of a valid state it loads again: the same number of attempts and a list
-- of accepted ids of the same length with the same members.
pub load-saved :
    (now : String) (r : Referee)
    → IsValid r
    → (ids : List String) × (load (flag_ids r.flags) (document (saved now r))
        ≡ ready (ids, r.submission_attempts))
      × (length ids ≡ length r.accepted)
      × ((a : String) → contains ids a ≡ contains r.accepted a)
load-saved now r v = (
  sorted r.accepted,
  load-saved-sorted now r v,
  length-sorted r.accepted,
  contains-sorted r.accepted,
)
