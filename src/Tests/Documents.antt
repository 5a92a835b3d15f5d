-- ===== src/Tests/Documents.antt =====
-- Tests of the documents that the site prints.
use go_mcp_server.Base.{◌≡◌, refl}
use go_mcp_server.Json.{pretty, quote, quote_rest, quote_char}
use go_mcp_server.Docs.Config.{client_example}

-- What `JSON.stringify(…, null, 2)` gives of the client configuration.
client_example_text :
    client_example "http://localhost:8080"
    ≡ "{\n  \"mcpServers\": {\n    \"memory\": {\n      \"type\": \"http\",\n      \"url\": \"http://localhost:8080/memory/mcp\",\n      \"headers\": {\n        \"X-API-Key\": \"<your-api-key>\"\n      }\n    },\n    \"skills\": {\n      \"type\": \"http\",\n      \"url\": \"http://localhost:8080/skills/mcp\",\n      \"headers\": {\n        \"X-API-Key\": \"<your-api-key>\"\n      }\n    },\n    \"gsc\": {\n      \"type\": \"http\",\n      \"url\": \"http://localhost:8080/gsc/mcp\",\n      \"headers\": {\n        \"X-API-Key\": \"<your-api-key>\"\n      }\n    },\n    \"producthunt\": {\n      \"type\": \"http\",\n      \"url\": \"http://localhost:8080/producthunt/mcp\",\n      \"headers\": {\n        \"X-API-Key\": \"<your-api-key>\"\n      }\n    },\n    \"event\": {\n      \"type\": \"http\",\n      \"url\": \"http://localhost:8080/event/mcp\",\n      \"headers\": {\n        \"X-API-Key\": \"<your-api-key>\"\n      }\n    }\n  }\n}"
unfolding client_example pretty quote quote_rest quote_char
client_example_text = refl
