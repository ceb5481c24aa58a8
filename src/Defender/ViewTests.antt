-- ===== src/Defender/ViewTests.antt =====
-- The dashboard's view of a defender after one tick.
use k3df.Base.{ℕ, ◌≡◌, refl, false, os_error, text_dec, String, some, [], ◌∷◌, ok}
use k3df.Json.{truthy, Value, null, str, arr, nil, obj}
use k3df.Defender.Store.{document}
use k3df.Defender.Collect.Sources.{scanner_result, access_log, access_items, read_sources}
use k3df.Text.{split, before, is_ascii}
use k3df.Defender.Address.{ip_address, in_network, address_of_text}
use k3df.Defender.Evidence.{Evidence, ignored_source}
use k3df.Defender.Collect.{collect, follow, rotate}
use k3df.Defender.Collect.Pattern.{read_line, span, after_prefix, match, read_three}
use k3df.Defender.Collect.Url.{
  urlsplit, strip_controls, without_scheme, query_names, field_names, split_fields,
}
use k3df.Defender.Graph.Lasting.{StaysConfirmed}
use k3df.Defender.Service.Lasting.{run-StaysConfirmed}
use k3df.Defender.Service.Run.{tick_turn, request, run}
use k3df.Defender.Service.Tick.{tick, tick_on, gather}
use k3df.Defender.Service.Written.{Kept, Stamp, state_document}
use k3df.Defender.Tests.{config, service}
use k3df.Defender.LoopTests.{page, world, moment}
use k3df.Dashboard.{missing}
use k3df.Dashboard.Snapshot.{defender_snapshot}
use k3df.Dashboard.Shows.{view_of, defender_snapshot-state_document}

abbrev kept : Kept
kept = record {
  reasoning_interval_sec = null;
  achieved_attack_tactics = arr nil;
  achieved_attack_techniques = arr nil;
  available_capabilities = arr nil;
  configuration = null;
}

abbrev iso : ℕ → String
iso n = "2026-01-01T00:00:00+00:00"

abbrev stamp : ℕ → Stamp
stamp i = record { event_id = "id"; ts = "2026-01-01T00:00:00+00:00" }

defender_snapshot-state_document_example :
    defender_snapshot
      (document (obj (state_document iso kept "2026-01-01T00:00:00+00:00" service)))
      missing
    ≡ ok (view_of iso "2026-01-01T00:00:00+00:00" service missing)
defender_snapshot-state_document_example =
    defender_snapshot-state_document iso kept "2026-01-01T00:00:00+00:00" service missing

run-StaysConfirmed_example :
    StaysConfirmed service.capability_graph
      (run
        (world (page ∷ []))
        config
        (tick_turn moment ∷ request 1_000_000_500 "/nginx/auth" (some "203.0.113.9") ∷ [])
        service).0.capability_graph
run-StaysConfirmed_example =
    run-StaysConfirmed (world (page ∷ [])) config
      (tick_turn moment ∷ request 1_000_000_500 "/nginx/auth" (some "203.0.113.9") ∷ []) service
      refl

-- The first write of the event file fails: the tick ends with its exception.
unwritten :
    (tick (world (page ∷ [])) config moment (record service { writes = false ∷ [] })).1
    ≡ some os_error
unfolding tick tick_on gather collect read_sources scanner_result access_log access_items read_line
    match span after_prefix read_three urlsplit strip_controls without_scheme before is_ascii
    query_names field_names split_fields ignored_source ip_address address_of_text split in_network
    follow rotate truthy text_dec
unwritten = refl
