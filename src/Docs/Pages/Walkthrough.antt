-- ===== src/Docs/Pages/Walkthrough.antt =====
-- `eventTaskQueueWalkthrough` of frontend/src/lib/docs.tsx.
use go_mcp_server.Base.{List, [], ◌∷◌, some}
use go_mcp_server.Docs.Types.{
  heading, text, callout, steps, str, element, fragment, nil, cons, step, Icon, Variant, Block,
}
use go_mcp_server.Docs.Config.{task_envelope, publish_call, consume_call}

abbrev pub event_task_queue_walkthrough : List Block
event_task_queue_walkthrough =
    heading "task-queue" "Worked example: a task queue for agents" (some Icon.workflow)
    ∷ text (
        fragment (
          cons
            (str "The two tools above compose into something more useful than message plumbing: a ")
            (cons (element "strong" (cons (str "durable inbox for an agent") nil)) (
              cons
                (str
                  ". A publisher — CI, a cron job, another agent, or you — drops a task on the topic. An agent polls the topic and carries the task out. Neither side has to be running at the same time, which is the whole point of putting a log between them.")
                nil))))
    ∷ steps (
        step "Publish a task" (
          fragment (
            cons
              (str
                "Emit a structured envelope rather than a sentence. Anything the worker needs to act without asking a follow-up question belongs in the payload: what to do, why, and what is still undecided.")
              nil))
        ∷ step "Poll with a consumer group" (
            fragment (
              cons (element "code" (cons (str "from: \"group\"") nil)) (
                cons
                  (str
                    " commits offsets as it reads, so each task is handed out once and a restarted agent resumes where it left off. ")
                  (cons (element "code" (cons (str "earliest") nil)) (
                    cons (str " and ") (
                      cons (element "code" (cons (str "latest") nil)) (
                        cons
                          (str
                            " peek without disturbing the group — useful for debugging, wrong for work.")
                          nil)))))))
        ∷ step "Act, then poll again" (
            fragment (
              cons (element "code" (cons (str "event_consume") nil)) (
                cons
                  (str
                    " is a bounded poll, not a live stream. An agent loop is: poll → do the work → poll again. There is no socket to keep open and nothing to reconnect.")
                  nil)))
        ∷ [])
    ∷ Block.code (some "json") (some "the task envelope") task_envelope
    ∷ Block.code (some "js") (some "publisher") publish_call
    ∷ Block.code (some "js") (some "worker") consume_call
    ∷ callout (some Variant.tip) (some "This is not hypothetical") (
        element "p" (
          cons
            (str
              "That envelope is the real message that drove this server’s authentication change. It was published to ")
            (cons (element "code" (cons (str "go-mcp-events") nil)) (
              cons
                (str
                  ", an agent polling the topic picked it up, verified every claim against the source, asked the two open questions, and shipped the")
                (cons (str " ") (
                  cons (element "code" (cons (str "RequireAPIKey") nil)) (
                    cons
                      (str
                        " middleware described on the Authentication page. The audit and the fix were connected by nothing but this topic.")
                      nil)))))))
    ∷ callout (some Variant.warning) (some "Treat payloads as input, not instructions") (
        element "p" (
          cons (str "Anyone with produce access can write to the topic, so a message is a") (
            cons (str " ") (
              cons (element "em" (cons (str "request") nil)) (
                cons
                  (str
                    ", not a command from a trusted operator. A worker should verify a payload’s claims before acting on them, and stop and escalate rather than execute anything destructive, irreversible, or outward-facing on a message’s say-so. Partition keys and headers are equally caller-supplied — never route privilege off them.")
                  nil)))))
    ∷ []
