-- ===== src/Lib.antt =====
-- codexD: a daemon that connects Discord threads to Codex sessions. A message in a thread
-- becomes a queued Turn of the thread's Conversation (storage/repository.py). A worker claims
-- the Turn for a live Runtime lease, runs it, and ends it; a user can cancel it meanwhile.
-- While it runs, its stream of events is merged and journalled (runtime/event_pump.py). What
-- the Turn says is put together from its messages (storage/transcript.py), cut into Discord
-- messages (rendering/discord.py), and queued for delivery; a worker claims each delivery under
-- a lease, and a governor spaces the requests (transport/discord/).
--
-- Paths are those below src/codexd/. Which file models what:
--   - Prelude: the shared names, results for code that raises, lists, texts.
--   - Domain/TurnState: domain/turns.py, the states of a Turn and the table of transitions.
--   - Domain/Cron: domain/schedules.py, the cron expressions: CronExpression.parse,
--     _parse_cron_field and matches.
--   - Application/Occurrences: application/schedule_coordinator.py, next_occurrence and
--     preview_occurrences. The zones that exist and their local times are parameters, an
--     unknown zone and an instant after the year 9999 are errors; the search counts the minutes
--     of five leap years, which is the loop's own deadline.
--   - Rendering/Graphemes, Rendering/Links, Rendering/Split: rendering/discord.py,
--     split_discord_text and what it calls. A text is the list of its code points.
--     `unicodedata.combining` is a parameter.
--   - Storage/Schema: the tables that the Turn operations use, as records of their rows;
--     Storage/Schema/Table: look-up and update by primary key.
--   - Storage/Turns: storage/repository.py, attach_turn_revision, claim_turn and
--     mark_turn_running; its children Interrupts (claim_turn_interrupt,
--     resolve_turn_interrupt), Terminal (terminal_turn, interrupt_unreplayable_schedule_turn),
--     Intents and Cancel (request_cancel with the command intent that it completes; whether its
--     projections return or raise is an argument). Its other children hold the proofs.
--   - Storage/Outbox: storage/repository.py, the queue of deliveries: enqueue_outbox,
--     claim_outbox, renew_outbox_lease, and of ack_outbox and retry_outbox the update under the
--     lease. SQLite's LIKE is a parameter, and the sequences in the table of events are an
--     argument of enqueue_outbox. Its children hold the proofs.
--   - Python: `split`, `join`, `strip` and `int` on texts, which the code uses.
--   - Security/Signing: security/signing.py, the signed ids of buttons and dialogs.
--     HMAC-SHA256, base64, UTF-8 and `unicodedata.decimal` are parameters; the theorems use of
--     them that base64's alphabet is ASCII and has no colon.
--   - Storage/Leases: storage/repository.py, the leases of the Runtimes, from
--     create_runtime_lease to mark_runtime_unhealthy.
--   - Storage/Daemon: storage/repository.py, the lease that keeps a second daemon from the
--     database.
--   - Storage/Events: storage/repository.py, append_event: the journal of the events of Turns.
--     The text that stands for a payload is a parameter.
--   - Storage/Transcript: storage/transcript.py, the visible blocks and the canonical final
--     answer.
--   - Application/Volatile: application/volatile_turns.py, the content of Turns in memory.
--   - Runtime/EventPump: runtime/event_pump.py, the merging of a stream's events (Merge) and
--     the loop of EventPump.run (Loop). What happens to the loop is a list, and the sink a
--     function of what it was given before.
--   - Runtime/Mailbox: runtime/mailbox.py, the task that takes a Conversation's queued Turns,
--     with next_queued_turn of storage/repository.py. What the task does between two awaits is
--     one step, and the steps of others come between them in any order.
--   - Transport/Reconnect, Transport/Governor: transport/discord/reconnect.py and
--     DiscordEgressGovernor of transport/discord/outbox.py; times are natural numbers of
--     milliseconds. The name under which a permit is counted is a parameter.
--
-- An operation of the repository is one transaction, so it is a function from the database and
-- its arguments to an error or a new database; an error leaves the database as it was.
-- `utc_now_ms()` is an argument `now`. The rows that an operation only writes, such as the
-- audit log's, are entries of a journal.
--
-- Loops are structural, or run on fuel that is the length of what they read: a step of the
-- splitting loop consumes at least one character, so the text's length is fuel enough, and the
-- theorems on it say that it returns. A range of a cron field has a round for each of its
-- numbers, digits a round for each unit of the value, and the search for an occurrence the
-- minutes up to the loop's deadline.
--
-- Not modelled: the rest of storage/repository.py and of storage/, among it the projection of
-- events, the attachments and the table of schedules; the coordinators of application/; of
-- runtime/event_pump.py what follows the loop. And, as calls of foreign code, the SDK and the
-- app server (runtime/codex_sdk.py, runtime/app_server.py), the Discord client and its gateway
-- (transport/discord/bot.py), the operating system's services, and the command line.
pub mod Prelude
pub mod Python
pub mod Domain
pub mod Rendering
pub mod Security
pub mod Storage
pub mod Runtime
pub mod Application
pub mod Transport
