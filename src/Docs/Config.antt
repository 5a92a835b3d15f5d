-- ===== src/Docs/Config.antt =====
-- The configurations and worked examples of frontend/src/lib/docs.tsx, as texts. `base` is
-- `MCP_BASE_URL`.
use go_mcp_server.Base.{String, ◌<>◌, true, false}
use go_mcp_server.Json.{Json, str, bool, num, arr, obj, nil, item, Fields, end, field, pretty}

-- `apiKeyHeaders`
abbrev pub api_key_headers : Json
api_key_headers = obj (field "X-API-Key" (str "<your-api-key>") end)

-- One entry of `mcpServers`.
abbrev pub http_entry : String → Json
http_entry url =
    obj (field "type" (str "http") (field "url" (str url) (field "headers" api_key_headers end)))

abbrev pub mcp_servers : Fields → Json
mcp_servers entries = obj (field "mcpServers" (obj entries) end)

-- The value that `clientExample` prints.
abbrev pub client_config : String → Json
client_config base = mcp_servers (
    field "memory" (http_entry (base <> "/memory/mcp")) (
      field "skills" (http_entry (base <> "/skills/mcp")) (
        field "gsc" (http_entry (base <> "/gsc/mcp")) (
          field "producthunt" (http_entry (base <> "/producthunt/mcp"))
            (field "event" (http_entry (base <> "/event/mcp")) end)))))

-- `clientExample`
unfoldable pub client_example : String → String
unfolding pretty
client_example base = pretty "" (client_config base)

-- `serverConfigJson`; `path` is the path of `servers[key]`.
unfoldable pub server_config_json : String → String → String → String
unfolding pretty
server_config_json base key path =
    pretty "" (mcp_servers (field key (http_entry (base <> path)) end))

abbrev pub task_value : Json
task_value = obj (
    field "type" (str "task") (
      field "id" (str "auth-x-api-key-all-namespaces") (
        field "title" (str "Require X-API-Key auth verification on every MCP namespace") (
          field "priority" (str "high") (
            field "source" (str "go-mcp-server audit") (
              field "summary"
                (str
                  "Only the memory namespace verifies X-API-Key, and it does so per-tool inside handlers. skills, event, gsc and producthunt accept unauthenticated calls. Enforce the key centrally so every server verifies auth before executing any action.")
                (field "findings"
                  (arr (
                    item
                      (obj
                        (field "namespace" (str "memory") (field "key_required" (bool true) end)))
                      (item
                        (obj (
                          field "namespace" (str "event") (
                            field "key_required" (bool false) (
                              field "detail" (str "Kafka publish reachable unauthenticated.")
                                end))))
                        nil)))
                  (field "plan"
                    (arr (
                      item
                        (obj (
                          field "step" (num 1) (
                            field "action"
                              (str
                                "Add RequireAPIKey middleware validating X-API-Key against the api_keys table.")
                              end)))
                        (item
                          (obj (
                            field "step" (num 2) (
                              field "action"
                                (str
                                  "Add it to the Chain in internal/mcpx/registry.go so it covers every namespace.")
                                end)))
                          nil)))
                    (field "open_questions"
                      (arr (item (str "Should /healthz remain unauthenticated?") nil)) end)))))))))

-- `taskEnvelope`
unfoldable pub task_envelope : String
unfolding pretty
task_envelope = pretty "" task_value

abbrev pub publish_call : String
publish_call =
    "event_publish({\n  topic: \"go-mcp-events\",\n  key: \"auth-x-api-key\",          // same key -> same partition -> ordered\n  headers: {\n    \"event-type\": \"task.created\",\n    \"domain\": \"security\",\n    \"producer\": \"ci-audit\"\n  },\n  value: JSON.stringify(task)     // value is a string; stringify your JSON\n})\n\n// -> { \"topic\": \"go-mcp-events\", \"partition\": 3, \"offset\": 1 }"

abbrev pub consume_call : String
consume_call =
    "event_consume({\n  topic: \"go-mcp-events\",\n  from: \"group\",                  // durable: offsets advance across calls\n  max: 20,\n  timeout_ms: 20000\n})\n\n// -> { \"count\": 1, \"group\": \"go-mcp-server\", \"messages\": [ ... ] }\n// Call it again and count is 0 — the offset was committed."
