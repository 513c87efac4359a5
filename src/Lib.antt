-- ===== src/Lib.antt =====
-- ForgeRoom is a chat room of people and agent coworkers. People post to channels; each message can
-- start a run with one step for each addressed coworker; a step takes turns at a remote provider,
-- TrueForge, which pauses a turn when a tool needs an approval or an answer; people decide on cards,
-- and the pause resumes as one response. This library models the rules that the services call, the
-- pure part of the repository: packages/domain, packages/orchestration, and the state that the web
-- client shows, packages/integrations/ag-ui.
--
-- Parts, and the files that model them:
--   Base: Boolean tests, lists, results, JSON values, integers over the native numbers, histories of
--     a transition table, lists without repetition, counting, the length of a text.
--   Domain.Transitions: packages/domain/src/transitions.ts. Each table `X_TRANSITIONS` is a function
--     from a state to the list of its successors, and each `canTransitionX` the test of membership;
--     one child a machine: Task, Run, Draft, Step, Turn, Pause, Proposal, Interrupt, Interaction.
--   Domain.Approvals: packages/domain/src/approvals/decision.ts. `build_approval_card` is
--     buildApprovalCard, `evaluate_approval_decision_gate` is evaluateApprovalDecisionGate.
--   Domain.Tasks: packages/domain/src/tasks/grants.ts, the authority of coworkers over tasks. The
--     guards of one authorisation are helpers of their own, in the order of the code.
--   Domain.CoworkerDrafts: packages/domain/src/coworkers/resolver.ts, the resolution of a draft. The
--     loop of uniqueHandle runs on fuel, one candidate more than there are handles that are taken.
--   Orchestration.TurnQueue: packages/orchestration/src/turn-queue.ts, and
--     sessionAcceptsInputWhilePaused of pause-group.ts.
--   Orchestration.StopCorrection: packages/orchestration/src/stop-correction.ts.
--   Orchestration.MultiAgentRun: packages/orchestration/src/multi-agent-run.ts, the plan of a run and
--     the summary of its steps; the counters of the loop are the record `Tally`.
--   Orchestration.PauseResume: packages/orchestration/src/pause-resume.ts, who may resume a group; the
--     `Map` of aliases is a list of pairs, the newest first.
--   Orchestration.Capability: packages/orchestration/src/capability-intersection.ts.
--   Orchestration.Rotation: packages/orchestration/src/session-rotation.ts.
--   Orchestration.ContextDelivery: the delivery cursor of packages/orchestration/src/context-envelope.ts,
--     and advanceSessionDeliveryCursor of apps/api/src/workspace/service.ts for a session and a channel
--     that are found.
--   Orchestration.Reconcile: packages/orchestration/src/turn-creation.ts, create-or-reconcile-turn.ts
--     and decideCreateOrReconcileResponseTurn. The awaited answers (lock, pages, created turn, bound
--     turn) are the record `Surroundings`; what the handler asks for is the list of its `Effect`s.
--     ResponseInput and ResponseHandler are buildResponseOnlyTurnInput of pause-resume.ts and
--     create-or-reconcile-response-turn.ts; Continuation is component-continuation.ts and
--     create-or-reconcile-component-continuation-turn.ts. `Allows` of Reconcile/Laws/Protocol is the
--     protocol that the three handlers have in common, as a relation between its phases.
--   Orchestration.Router: packages/orchestration/src/router.ts and the types of
--     packages/contracts/src/routing.ts. A `Map` of handles is the list of its entries in order.
--   Orchestration.PauseGroup: packages/orchestration/src/pause-group.ts. Redaction is what is done to
--     the texts of a provider, Actions the reading of one raw action, Capture the plan.
--   AgUi.Patch: packages/integrations/ag-ui/src/json-patch.ts. AgUi.Delta: the activity deltas of
--     packages/contracts/src/events.ts. AgUi.Activities and AgUi.ToolCalls: activity-reducer.ts and
--     tool-call-reducer.ts of packages/integrations/ag-ui/src; AgUi.Lanes is what both declare.
--     AgUi.UiState and AgUi.Compaction: ui-state-reducer.ts and messages-compaction.ts of the same
--     package.
--   Orchestration.Watchdog: packages/orchestration/src/watchdog.ts, the class ApplicationWatchdog; the
--     timers of its clock are the list of the pending ones, its calls of onLimitExceeded the list of
--     reports, and an `Occurrence` is a call of a public method or a timer that goes off.
--
-- How they interact: Reconcile, TurnQueue and StopCorrection speak of turns and steps whose states are
-- those of Transitions; Approvals asks for marks that the proposal's table accepts; Tasks asks the
-- task's table before it looks at the granted moves; Rotation compares the tools that Capability
-- computes; StopCorrection and Rotation share the types of TurnQueue; the reducer of activities checks a
-- delta by Delta and applies it by Patch.
--
-- Conventions. Enumerations of texts are data types with the source's names; where a row holds a
-- plain text, so does the model. Optional and nullable fields are `Option`. An empty text is falsy.
-- Every other loop is structural recursion on its list or value, so no fuel is needed; the loop
-- over the pages of a history runs over the list of answers and has thrown where they end early. A
-- set is a list that is asked for membership. What the language and the digest library do is a
-- parameter: `Date.parse` (`parse_date`), the order of `localeCompare` (`before`), `trim`,
-- `toLowerCase`, the splitting of a pointer, the matches of a pattern, the SHA-256 digest of a
-- turn's input and previous id (`hash_intent`) and what zod checks of a value or an id. Hypotheses
-- are made on three of them: that a pointer of one segment splits into it, that a value that zod has
-- parsed has the revision that its document has, and that the numbered handles differ. Of the awaited
-- calls, those that read the history, create or bind a turn or continue an interrupt may throw; the
-- lock and the calls of markUncertain are taken to answer.
--
-- Not modelled: the other services of apps/api and those of apps/worker, the pages of apps/web, the
-- database queries of packages/db, the schemas of packages/contracts other than the enumerations,
-- records and checks used here, the other clients of packages/integrations, and of the two modelled
-- packages the skill drafts, component registry, the bridges to tools, the text of the context
-- envelope, the reading of tokens from an event and the provisioning of sessions: they are input and
-- output around these rules, or stand apart from them.
pub mod Base
pub mod Domain
pub mod Orchestration
pub mod AgUi
