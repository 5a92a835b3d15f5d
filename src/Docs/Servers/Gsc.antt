-- ===== src/Docs/Servers/Gsc.antt =====
-- The `gsc` entry of `servers`, frontend/src/lib/docs.tsx.
use go_mcp_server.Base.{[], ◌∷◌, none, some}
use go_mcp_server.Docs.Types.{ServerDoc, Icon, tool, needs, takes, defaults}

abbrev pub gsc : ServerDoc
gsc = record {
  key = "gsc";
  name = "Search Console";
  path = "/gsc/mcp";
  icon = Icon.line_chart;
  tagline =
      "Google Search Console over MCP: properties, search-analytics reports, URL inspection, and sitemaps.";
  requires = some (record {
    caller = "X-API-Key header";
    user_provided =
        (some
          "your own Google Search Console credentials — a service-account JSON (or OAuth via Application Default Credentials) for the Google account whose properties you want to read");
    server = none;
  });
  note =
      (some
        "Mounts even without credentials: every tool reports the config problem instead of failing the server. Call gsc_capabilities first to check auth status. Mutating tools (add/delete site, submit/delete sitemap) require GSC_ALLOW_DESTRUCTIVE=true.");
  example =
      (some
        "Ask which pages are losing search traffic. Call gsc_compare_periods across two date ranges to surface the movers, then gsc_inspect_url on a page that dropped to check whether Google still has it indexed and why.");
  tools =
      tool "gsc_capabilities"
        "Report this server's configuration and readiness: whether credentials resolved, the auth source, the default data-state, whether mutations are enabled, and the tool catalogue. Call this first if other tools error."
        ([])
      ∷ tool "gsc_list_properties"
          "List every Search Console property the authenticated principal can access, with permission level."
          ([])
      ∷ tool "gsc_get_site_details"
          "Get details (permission level) for a single property identified by site_url."
          (needs "site_url" "string" "The Search Console property." ∷ [])
      ∷ tool "gsc_add_site"
          "Add a property to the account (Sites.add). Mutating; requires GSC_ALLOW_DESTRUCTIVE=true."
          (needs "site_url" "string" "The property to add." ∷ [])
      ∷ tool "gsc_delete_site"
          "Remove a property from the account (Sites.delete). Mutating; requires GSC_ALLOW_DESTRUCTIVE=true."
          (needs "site_url" "string" "The property to remove." ∷ [])
      ∷ tool "gsc_search_analytics"
          "Search-traffic report for a property over the last N days: top rows by dimension."
          (needs "site_url" "string" "The Search Console property."
            ∷ defaults "days" "int" "28" "Look-back window in days ending today."
            ∷ defaults "dimensions" "string" "query"
                "Comma-separated: query, page, country, device, date, searchAppearance."
            ∷ defaults "row_limit" "int" "20" "Max rows to return."
            ∷ [])
      ∷ tool "gsc_advanced_search_analytics"
          "Full-featured Search Analytics query: explicit dates, dimensions, filters, sorting, pagination, and data-state."
          (needs "site_url" "string" "The Search Console property."
            ∷ takes "start_date" "string" "YYYY-MM-DD; defaults to 28 days before end_date."
            ∷ takes "end_date" "string" "YYYY-MM-DD; defaults to today."
            ∷ defaults "search_type" "string" "WEB"
                "WEB, IMAGE, VIDEO, NEWS, DISCOVER or GOOGLE_NEWS."
            ∷ defaults "row_limit" "int" "1000" "Max rows, up to 25000."
            ∷ defaults "data_state" "string" "ALL" "ALL (fresh data) or FINAL (finalized only)."
            ∷ [])
      ∷ tool "gsc_performance_overview"
          "High-level performance summary for a property over the last N days: total clicks, impressions, CTR, position."
          (needs "site_url" "string" "The Search Console property."
            ∷ defaults "days" "int" "28" "Look-back window in days."
            ∷ [])
      ∷ tool "gsc_compare_periods"
          "Compare Search Analytics between two explicit date ranges (period1 vs period2), grouped by dimension."
          (needs "site_url" "string" "The Search Console property."
            ∷ needs "period1_start" "string" "YYYY-MM-DD start of the baseline period."
            ∷ needs "period1_end" "string" "YYYY-MM-DD end of the baseline period."
            ∷ needs "period2_start" "string" "YYYY-MM-DD start of the comparison period."
            ∷ needs "period2_end" "string" "YYYY-MM-DD end of the comparison period."
            ∷ defaults "limit" "int" "10" "Max keys to compare (ranked by period-2 clicks)."
            ∷ [])
      ∷ tool "gsc_search_by_page_query"
          "For a single page URL, the search queries that drove impressions/clicks to it over the last N days."
          (needs "site_url" "string" "The Search Console property."
            ∷ needs "page_url" "string" "The exact page URL to break down by query."
            ∷ defaults "days" "int" "28" "Look-back window in days."
            ∷ defaults "row_limit" "int" "20" "Max queries to return."
            ∷ [])
      ∷ tool "gsc_inspect_url"
          "Inspect a single URL's Google index status (URL Inspection API): verdict, coverage state, and more."
          (needs "site_url" "string" "The property that owns the URL."
            ∷ needs "page_url" "string" "The fully-qualified URL to inspect."
            ∷ [])
      ∷ tool "gsc_batch_inspect_urls"
          "Inspect up to 10 URLs concurrently and return each one's index status."
          (needs "site_url" "string" "The Search Console property."
            ∷ needs "urls" "string" "URLs to inspect, one per line or comma-separated (max 10)."
            ∷ [])
      ∷ tool "gsc_check_indexing_issues"
          "Inspect up to 10 URLs and summarize indexing problems: which are indexed vs not, and why."
          (needs "site_url" "string" "The Search Console property."
            ∷ needs "urls" "string" "URLs to inspect (max 10)."
            ∷ [])
      ∷ tool "gsc_list_sitemaps"
          "List sitemaps for a property with status detail: submitted/downloaded dates, type, pending status."
          (needs "site_url" "string" "The Search Console property."
            ∷ takes "sitemap_index" "string" "Optional sitemap-index URL to list child sitemaps of."
            ∷ [])
      ∷ tool "gsc_get_sitemap"
          "Get full detail for a single sitemap by its feedpath URL, including content breakdown."
          (needs "site_url" "string" "The Search Console property."
            ∷ needs "sitemap_url" "string" "The full sitemap URL (feedpath)."
            ∷ [])
      ∷ tool "gsc_submit_sitemap"
          "Submit (or resubmit) a sitemap to Search Console. Mutating; requires GSC_ALLOW_DESTRUCTIVE=true."
          (needs "site_url" "string" "The Search Console property."
            ∷ needs "sitemap_url" "string" "The full sitemap URL to submit."
            ∷ [])
      ∷ tool "gsc_delete_sitemap"
          "Delete/unsubmit a sitemap from Search Console. Mutating; requires GSC_ALLOW_DESTRUCTIVE=true."
          (needs "site_url" "string" "The Search Console property."
            ∷ needs "sitemap_url" "string" "The full sitemap URL to delete."
            ∷ [])
      ∷ [];
}
