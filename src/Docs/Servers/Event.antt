-- ===== src/Docs/Servers/Event.antt =====
-- The `event` entry of `servers`, frontend/src/lib/docs.tsx.
use go_mcp_server.Base.{[], ◌∷◌, none, some}
use go_mcp_server.Docs.Types.{ServerDoc, Icon, tool, needs, takes, defaults}

abbrev pub event : ServerDoc
event = record {
  key = "event";
  name = "Event";
  path = "/event/mcp";
  icon = Icon.radio;
  tagline =
      "Publish and consume Kafka messages over MCP. Produce to a topic, poll it back through a durable consumer group, and manage topics on Confluent Cloud.";
  requires = some (record {
    caller = "X-API-Key header";
    user_provided = none;
    server =
        (some
          "KAFKA_BOOTSTRAP_SERVERS, KAFKA_API_KEY and KAFKA_API_SECRET (Confluent Cloud) · KAFKA_ALLOW_TOPIC_ADMIN=true to create or delete topics");
  });
  note =
      (some
        "Mounts even without credentials: every tool reports the config problem instead of failing the server. Call event_capabilities first to check status. event_publish and event_consume fall back to KAFKA_DEFAULT_TOPIC when no topic is given. Topic create and delete stay disabled until KAFKA_ALLOW_TOPIC_ADMIN=true.");
  example =
      (some
        "Wire an agent into your event stream. Call event_publish to emit a record to a Kafka topic, then event_consume from a durable group so a later call picks up only the new messages. Confluent Cloud credentials are all it needs.");
  tools =
      tool "event_capabilities"
        "Report this event server's configuration and readiness: whether a broker and Confluent Cloud credentials are set, the default consumer group and topic, whether topic admin is enabled, and the tool catalogue. Call this first if other tools error."
        ([])
      ∷ tool "event_publish"
          "Publish one message to a Kafka topic and return the partition and offset the record was written to."
          (needs "value" "string" "The message payload as a string. JSON is fine."
            ∷ defaults "topic" "string" "KAFKA_DEFAULT_TOPIC" "Topic to publish to."
            ∷ takes "key" "string"
                "Optional partition key. The same key always routes to the same partition."
            ∷ takes "headers" "object" "Optional string headers attached to the record."
            ∷ [])
      ∷ tool "event_consume"
          "Read up to max messages from a Kafka topic, returning within timeout_ms. This is a bounded poll, not a live stream, so call it again to read more."
          (defaults "topic" "string" "KAFKA_DEFAULT_TOPIC" "Topic to read."
            ∷ defaults "from" "string" "group"
                "Where to read from: group (durable offsets that advance across calls), earliest, or latest."
            ∷ defaults "group" "string" "KAFKA_CONSUMER_GROUP"
                "Consumer group. Only used when from is group."
            ∷ defaults "max" "int" "10" "Max messages to return, capped at 100."
            ∷ defaults "timeout_ms" "int" "5000" "Overall poll budget in milliseconds."
            ∷ [])
      ∷ tool "event_topics"
          "List the topics on the Kafka cluster with their partition counts. Read-only." ([])
      ∷ tool "event_create_topic"
          "Create a Kafka topic. Mutating; requires KAFKA_ALLOW_TOPIC_ADMIN=true. Confluent Cloud requires a replication factor of 3."
          (needs "topic" "string" "The topic name to create."
            ∷ defaults "partitions" "int" "1" "Partition count."
            ∷ defaults "replication_factor" "int" "3"
                "Replication factor. Confluent Cloud requires 3."
            ∷ [])
      ∷ tool "event_delete_topic"
          "Delete a Kafka topic. Mutating; requires KAFKA_ALLOW_TOPIC_ADMIN=true."
          (needs "topic" "string" "The topic name to delete." ∷ [])
      ∷ [];
}
