-- ===== src/Dashboard/Counts.antt =====
-- The numbers that `activity_snapshot` shows fit together.
use k3df.Base.{
  ℕ, ◌+◌, ◌≤◌, ◌≡◌, refl, Bool, ◌&&◌, String, Option, none, some, List, [], ◌∷◌, ◌++◌, length,
  length-append, leb, ltb, if◌then◌else◌, arith,
}
use k3df.Dashboard.{last_of, reverse_onto}
use k3df.Dashboard.Request.{is_suspicious}
use k3df.Dashboard.Activity.{
  Item, Entry, Activity, start, observe_item, observe_line, observe_lines, match_item, count_codes,
  view, activity_snapshot, code_of,
}

-- Of `n` requests the first eight are shown.
abbrev pub shown_of : ℕ → ℕ
shown_of n = if ltb n 8 then n else 8

record Counted (a : Activity) : Type 0 where
  suspicious : a.suspicious_requests ≤ length a.status_codes
  addresses : length a.addresses ≤ length a.status_codes
  events : length a.events ≡ shown_of (length a.status_codes)

start_Counted : Counted start
start_Counted = record { suspicious = omega arith; addresses = omega arith; events = refl }

show_one :
    (events : List Entry) (e : Entry) (code : ℕ) (codes : List ℕ)
    → length events ≡ shown_of (length codes)
    → length (if ltb (length events) 8 then events ++ (e ∷ []) else events)
      ≡ shown_of (length (codes ++ (code ∷ [])))
show_one events e code codes h =
    ground (arith, h, length-append events (e ∷ []), length-append codes (code ∷ []))

observe_item-Counted :
    (code : ℕ) (suspicious : Bool) (i : Item) (a : Activity)
    → Counted a
    → Counted (observe_item code suspicious i a)
observe_item-Counted code suspicious i a c = record {
  suspicious = ground (arith, c.suspicious, length-append a.status_codes (code ∷ []));
  addresses = ground (arith, c.addresses, length-append a.status_codes (code ∷ []));
  events = show_one a.events _ code a.status_codes c.events;
}

count_errors :
    (cs : List ℕ)
    → count_codes (λ c. leb 400 c && ltb c 500) cs + count_codes (leb 500) cs ≤ length cs
count_errors [] = omega arith
count_errors (c ∷ cs) = ground (arith, count_errors cs)

module _ (digit : ℕ → Option ℕ) (is_word : ℕ → Bool) (unquote : String → String) where
  observe_line-Counted :
      (o : Option Item) (a : Activity)
      → Counted a
      → Counted (observe_line digit is_word unquote o a)
  observe_line-Counted none a c = c
  observe_line-Counted (some i) a c =
      observe_item-Counted (code_of digit i) (is_suspicious is_word (unquote i.request)) i a c

  observe_lines-Counted :
      (ls : List String) (a : Activity)
      → Counted a
      → Counted (observe_lines digit is_word unquote ls a)
  unfolding observe_lines
  observe_lines-Counted [] a c = c
  observe_lines-Counted (l ∷ ls) a c =
      observe_lines-Counted ls _ (observe_line-Counted (match_item digit l) a c)

  fits :
      (a : Activity)
      → Counted a
      → ((view a).client_errors + (view a).server_errors ≤ (view a).requests_observed)
        × ((view a).suspicious ≤ (view a).requests_observed)
        × ((view a).client_addresses ≤ (view a).requests_observed)
        × (length (view a).shown ≡ shown_of (view a).requests_observed)
  fits a c = (count_errors a.status_codes, c.suspicious, c.addresses, c.events)

  -- Whatever lines the log has, activity_snapshot shows at most as many client and server
  -- errors together, suspicious requests and client addresses as it shows requests, and the
  -- number of requests that it lists is theirs up to eight, and eight from there on.
  pub activity_snapshot_bounds :
      (ls : List String)
      → ((activity_snapshot digit is_word unquote ls).client_errors
            + (activity_snapshot digit is_word unquote ls).server_errors
          ≤ (activity_snapshot digit is_word unquote ls).requests_observed)
        × ((activity_snapshot digit is_word unquote ls).suspicious
            ≤ (activity_snapshot digit is_word unquote ls).requests_observed)
        × ((activity_snapshot digit is_word unquote ls).client_addresses
            ≤ (activity_snapshot digit is_word unquote ls).requests_observed)
        × (length (activity_snapshot digit is_word unquote ls).shown
            ≡ shown_of (activity_snapshot digit is_word unquote ls).requests_observed)
  unfolding activity_snapshot
  activity_snapshot_bounds ls =
      fits _ (observe_lines-Counted (reverse_onto [] (last_of 200 ls)) start start_Counted)
