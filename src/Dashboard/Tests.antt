-- ===== src/Dashboard/Tests.antt =====
-- The dashboard at concrete inputs.
use k3df.Base.{
  ℕ, ◌+◌, ◌-◌, ◌≤◌, ◌≡◌, refl, Bool, true, false, ◌&&◌, ◌||◌, String, Option, none, some, List, [],
  ◌∷◌, length, leb, eqb, text_dec, if◌then◌else◌, ok, ◌>>=◌,
}
use k3df.Json.{null}
use k3df.Text.{before}
use k3df.Defender.Graph.{default_graph, graph_value, normalize_graph}
use k3df.Defender.Graph.Valid.{IsGraph, normalize_graph-IsGraph}
use k3df.Defender.Graph.RoundTrip.{fields_of}
use k3df.Defender.Graph.Observe.{derived_depths, depths}
use k3df.Defender.Collect.Pattern.{span, after_prefix, read_three}
use k3df.Dashboard.Request.{is_suspicious, found_from, ends, run_ends}
use k3df.Dashboard.Activity.{
  activity_snapshot, observe_lines, match_item, lazily, after_white, count_path,
}
use k3df.Dashboard.Counts.{shown_of, activity_snapshot_bounds}
use k3df.Dashboard.Snapshot.{shown_nodes, depth_summary}
use k3df.Dashboard.Depths.{shown, depth_summary-depths}

abbrev digit : ℕ → Option ℕ
digit c = if leb b'0' c && leb c b'9' then some (c - b'0') else none

abbrev is_word : ℕ → Bool
is_word c =
    (leb b'0' c && leb c b'9')
    || (leb b'A' c && leb c b'Z')
    || (leb b'a' c && leb c b'z')
    || eqb c b'_'

-- Requests that are flagged, and some that only look like one.
union_request : is_suspicious is_word "GET /customer?id=1 UNION ALL SELECT secret HTTP/1.1" ≡ true
unfolding is_suspicious found_from ends run_ends
union_request = refl

or_request : is_suspicious is_word "GET /customer?id=1 OR 1=1 HTTP/1.1" ≡ true
unfolding is_suspicious found_from ends run_ends
or_request = refl

sleep_request : is_suspicious is_word "GET /?q=sleep (5)" ≡ true
unfolding is_suspicious found_from ends run_ends
sleep_request = refl

plain_request : is_suspicious is_word "GET /customer?id=1 HTTP/1.1" ≡ false
unfolding is_suspicious found_from ends run_ends
plain_request = refl

joined_request : is_suspicious is_word "GET /reunion-selection?color=1" ≡ false
unfolding is_suspicious found_from ends run_ends
joined_request = refl

abbrev log_lines : List String
log_lines =
    "203.0.113.9 - - [01/Jan/2026:00:00:00 +0000] \"GET /customer?id=1 OR 1=1 HTTP/1.1\" 500 5"
    ∷ "no request" ∷ "10.0.0.1 - - [01/Jan/2026:00:00:01 +0000] \"GET / HTTP/1.1\" 404 5" ∷ []

log_counts :
    ((activity_snapshot digit is_word (λ s. s) log_lines).requests_observed ≡ 2)
    × ((activity_snapshot digit is_word (λ s. s) log_lines).suspicious ≡ 1)
    × ((activity_snapshot digit is_word (λ s. s) log_lines).top ≡ "/")
unfolding activity_snapshot observe_lines match_item lazily span after_prefix read_three after_white
    count_path before text_dec is_suspicious found_from ends run_ends
log_counts = (refl, refl, refl)

activity_snapshot_bounds_example :
    ((activity_snapshot digit is_word (λ s. s) log_lines).client_errors
        + (activity_snapshot digit is_word (λ s. s) log_lines).server_errors
      ≤ (activity_snapshot digit is_word (λ s. s) log_lines).requests_observed)
    × ((activity_snapshot digit is_word (λ s. s) log_lines).suspicious
        ≤ (activity_snapshot digit is_word (λ s. s) log_lines).requests_observed)
    × ((activity_snapshot digit is_word (λ s. s) log_lines).client_addresses
        ≤ (activity_snapshot digit is_word (λ s. s) log_lines).requests_observed)
    × (length (activity_snapshot digit is_word (λ s. s) log_lines).shown
        ≡ shown_of (activity_snapshot digit is_word (λ s. s) log_lines).requests_observed)
activity_snapshot_bounds_example = activity_snapshot_bounds digit is_word (λ s. s) log_lines

default_graph-IsGraph : IsGraph default_graph
unfolding normalize_graph
default_graph-IsGraph = normalize_graph-IsGraph null default_graph refl

depth_summary-depths_example :
    (derived_depths (graph_value default_graph) ≡ ok (depths default_graph))
    × ((shown_nodes (fields_of (graph_value default_graph)) >>= depth_summary)
        ≡ ok (shown (depths default_graph)))
depth_summary-depths_example = depth_summary-depths default_graph default_graph-IsGraph
