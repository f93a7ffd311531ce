-- ===== src/Examples/QueryRuns.antt =====
-- The round trip of the search box at one filter.
use ampla.Shared.{◌≡◌, refl, true, none, some, arith}
use ampla.Query.{ParsedFilter, parse_filter_query}
use ampla.Query.Render.{render}
use ampla.Query.RoundTrip.{parse_filter_query-render}

abbrev filter : ParsedFilter
filter = record {
  status = some "saved";
  unread = some true;
  reason = some "mention";
  agent_slug = some "backend-julio";
  actor = none;
  subject_type = some "task";
}

parse_filter_query-render_example : parse_filter_query (λ s. s) (some (render filter)) ≡ filter
parse_filter_query-render_example =
    parse_filter_query-render (λ s. s) filter (λ s h. refl)
      (refl, refl, (refl, refl, omega arith), tt, refl)
