-- ===== src/Docs/Servers/Producthunt.antt =====
-- The `producthunt` entry of `servers`, frontend/src/lib/docs.tsx.
use go_mcp_server.Base.{[], ◌∷◌, none, some}
use go_mcp_server.Docs.Types.{ServerDoc, Icon, tool, needs, takes, defaults}

abbrev pub producthunt : ServerDoc
producthunt = record {
  key = "producthunt";
  name = "Product Hunt";
  path = "/producthunt/mcp";
  icon = Icon.rocket;
  tagline =
      "Product Hunt's v2 GraphQL API over MCP: posts, topics, collections, users, and a raw GraphQL escape hatch.";
  requires = some (record {
    caller = "X-API-Key header";
    user_provided = none;
    server =
        (some
          "PRODUCTHUNT_TOKEN (developer token) or PRODUCTHUNT_CLIENT_ID + PRODUCTHUNT_CLIENT_SECRET");
  });
  note =
      (some
        "Read-only: only public queries are exposed, no mutations. Mounts even without a token: call producthunt_capabilities first to check auth. producthunt_viewer needs a user-scoped token.");
  example =
      (some
        "Track what launched today. Call producthunt_list_posts ordered by RANKING for a topic like artificial-intelligence, read the discussion with producthunt_get_post_comments, or drop to producthunt_graphql for any field the typed tools do not expose.");
  tools =
      tool "producthunt_capabilities"
        "Report this server's configuration and readiness: whether credentials resolved, the auth source, and the tool catalogue. Call this first if other tools error."
        ([])
      ∷ tool "producthunt_list_posts"
          "List Product Hunt posts (product launches) with their votes, comments and topics."
          (defaults "order" "string" "RANKING" "RANKING, NEWEST, VOTES or FEATURED_AT."
            ∷ takes "topic" "string" "Filter to a topic slug, e.g. artificial-intelligence."
            ∷ takes "posted_after" "string" "Only posts created after this ISO-8601 timestamp."
            ∷ defaults "first" "int" "10" "Page size, max 20."
            ∷ takes "after" "string" "Pagination cursor from a previous call."
            ∷ [])
      ∷ tool "producthunt_get_post"
          "Get one Product Hunt post in full by id or slug (the slug from its URL)."
          (takes "id" "string" "The post ID; provide this or slug."
            ∷ takes "slug" "string" "The post slug from its URL; provide this or id."
            ∷ [])
      ∷ tool "producthunt_get_post_comments"
          "List the comments on a Product Hunt post identified by id or slug."
          (takes "id" "string" "The post ID; provide this or slug."
            ∷ takes "slug" "string" "The post slug; provide this or id."
            ∷ defaults "order" "string" "VOTES" "VOTES or NEWEST."
            ∷ defaults "first" "int" "20" "Page size, max 20."
            ∷ [])
      ∷ tool "producthunt_list_topics"
          "List or search Product Hunt topics (categories) with their follower and post counts."
          (takes "query" "string" "Search topics by name."
            ∷ defaults "order" "string" "FOLLOWERS_COUNT" "FOLLOWERS_COUNT or NEWEST."
            ∷ defaults "first" "int" "20" "Page size, max 20."
            ∷ [])
      ∷ tool "producthunt_get_topic"
          "Get one Product Hunt topic by id or slug: description, follower and post counts, and URL."
          (takes "id" "string" "The topic ID; provide this or slug."
            ∷ takes "slug" "string"
                "The topic slug, e.g. artificial-intelligence; provide this or id."
            ∷ [])
      ∷ tool "producthunt_list_collections"
          "List Product Hunt collections (curated lists of posts)."
          (takes "featured" "bool"
              "Only featured (true) or only non-featured (false); omit for all."
            ∷ takes "user_id" "string" "Only collections curated by this user ID."
            ∷ takes "post_id" "string" "Only collections that contain this post ID."
            ∷ defaults "first" "int" "10" "Page size, max 20."
            ∷ [])
      ∷ tool "producthunt_get_collection"
          "Get one Product Hunt collection by id or slug, including the first posts it contains."
          (takes "id" "string" "The collection ID; provide this or slug."
            ∷ takes "slug" "string" "The collection slug; provide this or id."
            ∷ defaults "first" "int" "10" "How many contained posts to include, max 20."
            ∷ [])
      ∷ tool "producthunt_get_user"
          "Get a Product Hunt user's profile by id or username, with a sample of the posts they made."
          (takes "id" "string" "The user ID; provide this or username."
            ∷ takes "username" "string" "The user's username; provide this or id."
            ∷ defaults "posts" "int" "5" "How many of the user's posts to include, max 20."
            ∷ [])
      ∷ tool "producthunt_viewer"
          "Return the profile of the user the current token belongs to (the GraphQL viewer). Needs a user-scoped token."
          ([])
      ∷ tool "producthunt_graphql"
          "Run an arbitrary GraphQL query against the Product Hunt v2 API and return the raw data. Escape hatch for anything the typed tools don't expose."
          (needs "query" "string" "The GraphQL query or document to execute."
            ∷ takes "variables" "object" "Optional variables object referenced by the query."
            ∷ [])
      ∷ [];
}
