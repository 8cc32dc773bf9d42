-- ===== src/Lib.antt =====
-- Verification of the control plane of Photon Kernel Sandbox, the Python code that decides about
-- sandboxes: when to break the circuit, how tickets move, where gangs of sandboxes run, which
-- connections leave them, which tools their agents may call, how sessions are kept, which playbooks
-- and rules of defence are in force, and which events are believed.
--
-- The parts, the code of each, and the files that model it:
--
--   Breaker   evolution/security_circuit_breaker.py, `SecurityCircuitBreaker`. Security events are
--             reported; the first rule that fires takes an action, which raises the state and the
--             level of the breaker and is recovered by hand or when it is due. Types, Rules, Engine,
--             Recovery and Queries hold the code, Runs its histories.
--   Tickets   ops/ticket_system.py, `TicketSystem`. Tickets are created by hand or from an event,
--             such as one of the breaker, and move between states under two deadlines. Types, Desk,
--             Flow, Sla and Reports hold the code, Runs its histories.
--   Gang      evolution/gang_scheduler.py, `TopologyAwareScheduler` and `GangScheduler`. Groups of
--             sandboxes get NUMA nodes, start and end as a whole. Types, Topology and Scheduler hold
--             the code, Runs its histories.
--   Gateway   server/gateway/isolation_gateway.py. All connections of the sandboxes pass it: rules
--             on addresses, limits on connections and bytes, a chained audit log. Types, Addresses,
--             Buckets, Tracker, Audit and Proxy hold the code.
--   Guard     evolution/policy_guard.py, `PolicyGuard`. A tool call of an agent is checked against
--             rules and for injected prompts before it is made; some wait for a person. Types,
--             Detector, Checks and Approvals hold the code, Counts its histories.
--   Sessions  evolution/session_state_manager.py, `SessionStateManager`. Sessions of tenants with a
--             state, snapshots to go back to, a log of the changes and files. Types, Store,
--             Lifecycle, Snapshots, Queries and Files hold the code, Runs its histories, which start
--             without files.
--   Playbooks ops/playbook_engine.py, `PlaybookEngine`. Events trigger playbooks, by priority; their
--             actions are executed in order until one fails or requires an approval. Types, Matching,
--             Execution, Handlers, Engine and Loading hold the code, Runs its histories.
--   Rules     evolution/defense_rule_persistence.py, `DefenseRulePersistence`. Versions of rules of
--             defence are deployed; failures break the circuit of a version, and the rule goes back
--             to an earlier one. Types, Places, Saving, Versions and Circuit hold the code, Invariant its
--             histories.
--   Validator evolution/event_input_validator.py, `EventInputValidator`. An event from outside passes a
--             chain of checks before it is used. Types, Checks and Chain hold the code, Counts its
--             histories.
--   Prelude   Boolean tests, lists, sorting, texts and Python's `dict`, which all parts share.
--
-- The remaining modules of each part are named for what they prove, and its Tests apply the
-- theorems at concrete inputs. A definition has the name of the method it models, without the
-- leading underscore.
--
-- How the code is read. A method is a function from the state to the state and the result; a lock
-- around a method makes it one step, and a history is a list of steps in any order. A dict is an
-- association list in insertion order. Times are natural numbers of microseconds, and each
-- reading of the clock in a call is separate: `clock k` is the k-th. Shares of a CPU are
-- thousandths of a core, tokens of a bucket millionths of a byte, scores of risk ten-thousandths
-- (of the validator tenths), metrics of a playbook thousandths. An object that two tables share
-- stands once: the active version of a rule is its place in the list of versions. What the code
-- takes from other libraries is an argument: the digest of the breaker and the HMAC of the audit
-- log, the digest in a file name, `str.lower`, uuids, the search for a regular expression, the
-- JSON parser, what a configuration is after it was written and read, the handlers of actions that are registered, the order of a set, the format of a
-- score, the reading of addresses, and what sockets and files do.
--
-- Bounds and fuel. The decimal digits of n need no more than n + 1 rounds. The wait for tokens
-- runs on fuel; one turn for each millisecond of its timeout and one more are enough where each
-- turn sleeps a millisecond. The chain of a session runs on fuel; one turn more than there are
-- sessions is enough. All other loops are structural.
--
-- Not modelled: threads inside a step, logging, the reading and writing of files and sockets, the
-- DNS proxy of the gateway, the built-in rules and the knowledge base of the guard, and the other
-- modules of evolution, ops, sdk, server, operator, scripts and benchmark, which search, score and
-- report, mostly over floating-point numbers, or call programs and models. The C++ sandbox itself
-- is outside.
pub mod Prelude
pub mod Breaker
pub mod Tickets
pub mod Gang
pub mod Gateway
pub mod Guard
pub mod Sessions
pub mod Playbooks
pub mod Rules
pub mod Validator
