-- ===== src/Dashboard/Activity.antt =====
-- dashboard/app.py: `activity_snapshot`. `digit` is the value of a decimal digit, `is_word` is that of
-- `\w`, and `unquote` is `unquote_plus`.
use Prim.Native.Char.{code}
use Prim.Native.String.{String}
use k3df.Base.{
  ℕ, suc, ◌+◌, ◌*◌, Bool, true, false, not, ◌&&◌, ◌||◌, Option, none, some, List, [], ◌∷◌, ◌++◌,
  length, leb, ltb, eqb, contains, if◌then◌else◌, ◌==◌, ◌<>◌,
}
use k3df.Text.{before, is_white}
use k3df.Defender.Collect.Pattern.{is_black, span, after_prefix, read_three}
use k3df.Dashboard.{last_of, reverse_onto}
use k3df.Dashboard.Request.{is_suspicious}

pub record Item : Type 0 where
  pub ip : String
  pub time : String
  pub request : String
  pub status : String

abbrev with_status : String → String → Option (String × String) → Option Item
with_status time request none = none
with_status time request (some (status, rest)) =
    some (record { ip = ""; time = time; request = request; status = status })

abbrev not_empty : String → Bool
not_empty String.[] = false
not_empty (String.◌∷◌ _ _) = true

-- What `unquote_plus` and Unicode's tables give.
module _ (digit : ℕ → Option ℕ) where
  abbrev after_request : String → String → Option String → Option Item
  after_request time request none = none
  after_request time request (some rest) = with_status time request (read_three digit rest)

  abbrev after_time : String → Option String → Option Item
  after_time time none = none
  after_time time (some s) =
      let (request, rest) = span (λ c. not (eqb c b'"')) s in
      after_request time request (after_prefix "\" " rest)

  abbrev after_bracket : Option String → Option Item
  after_bracket none = none
  after_bracket (some s) =
      let (time, rest) = span (λ c. not (eqb c b']')) s in
      if not_empty time then after_time time (after_prefix "] \"" rest) else none

  abbrev or_later : Option Item → Option Item → Option Item
  or_later (some i) later = some i
  or_later none later = later

  -- `.*?\[…`: the first bracket from which the rest matches, on the same line.
  unfoldable pub lazily : String → Option Item
  lazily String.[] = none
  lazily (String.◌∷◌ c s) =
      let later = lazily s in
      or_later (after_bracket (after_prefix "[" (String.◌∷◌ c s)))
        (if eqb (code c) 10 then none else later)

  abbrev extend_ip : String → Option Item → Option Item → Option Item
  extend_ip first (some i) shorter = some (record i { ip = first <> i.ip })
  extend_ip first none none = none
  extend_ip first none (some i) = some (record i { ip = first })

  -- `^\S+`, the longest run first.
  unfoldable pub match_item : String → Option Item
  unfolding lazily
  match_item String.[] = none
  match_item (String.◌∷◌ c s) =
      let longer = match_item s in
      if is_black (code c) then extend_ip (String.◌∷◌ c String.[]) longer (lazily s) else none

  abbrev status_code : ℕ → String → ℕ
  status_code n String.[] = n
  status_code n (String.◌∷◌ c s) =
      status_code (n * 10 + elim (digit (code c)) [ none ↦ 0 | some d ↦ d ]) s

  abbrev pub code_of : Item → ℕ
  code_of i = status_code 0 i.status

-- `request.split()[1].split("?", 1)[0]`, where there is a second part.
unfoldable pub after_white : String → String
after_white String.[] = String.[]
after_white (String.◌∷◌ c s) =
    let rest = after_white s in if is_white (code c) then rest else String.◌∷◌ c s

abbrev path_of : String → Option String
path_of request =
    let second = (span is_black (after_white (span is_black (after_white request)).1)).0 in
    if not_empty second then some (before b'?' second) else none

-- `paths[path] += 1`
unfoldable pub count_path : String → List (String × ℕ) → List (String × ℕ)
count_path p [] = (p, 1) ∷ []
count_path p ((q, n) ∷ rest) = if q == p then (q, suc n) ∷ rest else (q, n) ∷ count_path p rest

-- `most_common(1)[0][0]`: the first of the greatest counts.
abbrev top_from : String → ℕ → List (String × ℕ) → String
top_from best n [] = best
top_from best n ((q, k) ∷ rest) = if ltb n k then top_from q k rest else top_from best n rest

abbrev top_path : List (String × ℕ) → String
top_path [] = "--"
top_path ((q, n) ∷ rest) = top_from q n rest

pub data Level : Type 0 where
  normal warning alert : Level

pub record Entry : Type 0 where
  pub item : Item
  pub status : ℕ
  pub level : Level
  pub suspicious : Bool

abbrev level_of : Bool → ℕ → Level
level_of suspicious code =
    if suspicious || leb 500 code then alert else if leb 400 code then warning else normal

-- The variables of the loop.
pub record Activity : Type 0 where
  pub status_codes : List ℕ
  pub addresses : List String
  pub paths : List (String × ℕ)
  pub suspicious_requests : ℕ
  pub events : List Entry

abbrev pub start : Activity
start = record {
  status_codes = [];
  addresses = [];
  paths = [];
  suspicious_requests = 0;
  events = [];
}

abbrev add_path : Option String → List (String × ℕ) → List (String × ℕ)
add_path none paths = paths
add_path (some p) paths = count_path p paths

abbrev pub observe_item : ℕ → Bool → Item → Activity → Activity
observe_item code suspicious i a = record {
  status_codes = a.status_codes ++ (code ∷ []);
  addresses = if contains a.addresses i.ip then a.addresses else i.ip ∷ a.addresses;
  paths = add_path (path_of i.request) a.paths;
  suspicious_requests = if suspicious then suc a.suspicious_requests else a.suspicious_requests;
  events =
      if ltb (length a.events) 8
      then a.events
        ++ (record {
          item = i;
          status = code;
          level = level_of suspicious code;
          suspicious = suspicious;
        }
            ∷ [])
      else a.events;
}

abbrev pub count_codes : (ℕ → Bool) → List ℕ → ℕ
count_codes p [] = 0
count_codes p (c ∷ cs) = let rest = count_codes p cs in if p c then suc rest else rest

pub record View : Type 0 where
  pub requests_observed : ℕ
  pub client_addresses : ℕ
  pub client_errors : ℕ
  pub server_errors : ℕ
  pub suspicious : ℕ
  pub top : String
  pub shown : List Entry

abbrev pub view : Activity → View
view a = record {
  requests_observed = length a.status_codes;
  client_addresses = length a.addresses;
  client_errors = count_codes (λ c. leb 400 c && ltb c 500) a.status_codes;
  server_errors = count_codes (leb 500) a.status_codes;
  suspicious = a.suspicious_requests;
  top = top_path a.paths;
  shown = a.events;
}

module _ (digit : ℕ → Option ℕ) (is_word : ℕ → Bool) (unquote : String → String) where
  abbrev pub observe_line : Option Item → Activity → Activity
  observe_line none a = a
  observe_line (some i) a =
      observe_item (code_of digit i) (is_suspicious is_word (unquote i.request)) i a

  -- The loop over the lines.
  unfoldable pub observe_lines : List String → Activity → Activity
  unfolding match_item
  observe_lines [] a = a
  observe_lines (l ∷ ls) a = observe_lines ls (observe_line (match_item digit l) a)

  -- `activity_snapshot`; no lines where the log cannot be opened.
  unfoldable pub activity_snapshot : List String → View
  unfolding observe_lines
  activity_snapshot ls = view (observe_lines (reverse_onto [] (last_of 200 ls)) start)
