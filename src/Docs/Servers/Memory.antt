-- ===== src/Docs/Servers/Memory.antt =====
-- The `memory` entry of `servers`, frontend/src/lib/docs.tsx.
use go_mcp_server.Base.{[], ◌∷◌, none, some}
use go_mcp_server.Docs.Types.{ServerDoc, Icon, tool, needs, takes, defaults}

abbrev pub memory : ServerDoc
memory = record {
  key = "memory";
  name = "Memory";
  path = "/memory/mcp";
  icon = Icon.brain;
  tagline = "Per-user long-term memory. Hybrid RAG (semantic + keyword) over Postgres + pgvector.";
  requires = some (record {
    caller = "X-API-Key header";
    user_provided = none;
    server = (some "DATABASE_URL (pgvector) · OPENAI_API_KEY");
  });
  note = none;
  example =
      (some
        "Give an agent memory that outlives the session. Call memory_write to store a durable fact once (a user's stack, a decision, a summary), then memory_search before you act so the agent recalls it next time instead of asking again.");
  tools =
      tool "memory_search"
        "Search stored memories by meaning and keyword. Returns ranked snippets with a similarity score and an id; call memory_get with that id for full content. An empty result means nothing relevant is stored."
        (needs "query" "string" "What to search for, in natural language."
          ∷ defaults "limit" "int" "5" "Max results to return."
          ∷ defaults "min_score" "float" "0.35"
              "Cosine-similarity floor (0 to 1). Raise for stricter matches."
          ∷ takes "tags" "string[]" "Only search memories carrying any of these tags."
          ∷ [])
      ∷ tool "memory_write" "Store a new memory. Returns the created memory's id." (
          needs "content" "string" "The memory to store."
          ∷ takes "tags" "string[]" "Labels for filtering later."
          ∷ takes "metadata" "object" "Arbitrary key-value context."
          ∷ [])
      ∷ tool "memory_get" "Fetch one memory in full by id."
          (needs "id" "string" "The memory id, as returned by memory_search." ∷ [])
      ∷ tool "memory_update" "Replace a memory's content by id. The memory is re-embedded." (
          needs "id" "string" "The memory id to update."
          ∷ needs "content" "string" "Replacement content; the memory is re-embedded."
          ∷ [])
      ∷ tool "memory_delete" "Permanently delete a memory by id."
          (needs "id" "string" "The memory id to delete." ∷ [])
      ∷ tool "memory_list"
          "List recent memories newest-first, optionally filtered by tag. Use this to browse when you have no search query."
          (takes "tags" "string[]" "Only list memories carrying any of these tags."
            ∷ defaults "limit" "int" "20" "Max results."
            ∷ [])
      ∷ [];
}
