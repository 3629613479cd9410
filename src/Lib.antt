-- ===== src/Lib.antt =====
-- MyNoteBook is a desktop workspace in which agents work on documents. This library models parts of
-- its TypeScript code and proves what makes them correct.
--
-- Parts and files (paths from the root of the repository)
--   Run       An agent run: the reducer of src/models/agent/agentRunLifecycle.ts (Run/Lifecycle:
--             reduceAgentRunEvent is reduce_agent_run_event) and the event-sourced engine of
--             src/services/agent/AgentRunEngine.ts (Run/Engine: dispatch, reset, and onEvent's calls
--             as the list `notified`). Proofs in Run/Invariant, Run/Plan and Run/Replay.
--   Documents The records of src/models/documents/document.ts and src/models/shared/result.ts
--             (Documents/Defs), and src/models/documents/documentTree.ts: the ways up and down
--             (Documents/Tree) and the sidebar's forest (Documents/Forest). Proofs in
--             Documents/Walk, Documents/Ancestors, Documents/Chain, Documents/Filed,
--             Documents/Children and Documents/Descendants.
--   Autosave  The debounced saving of src/composables/useDocumentAutosave.ts. Autosave/Handlers has a
--             function for each piece of code between two awaits; Autosave/Steps says which may run
--             next. Proofs in Autosave/Invariant and Autosave/Saving.
--   Worker    The sidecar host of packages/agent-runtime-worker/src/AgentWorkerHost.ts over the
--             messages of packages/agent-runtime-contracts/src/index.ts. Worker/Host has the state,
--             Worker/Replies the requests that wait for one reply, Worker/Provider the proxied model
--             requests, Worker/Runs the runs, the dispatch of messages and stopping, Worker/Steps all
--             that can happen next. Proofs in Worker/Tickets, Worker/Claims, Worker/Traces,
--             Worker/Stopping and Worker/Stranded, over the frame lemmas of Worker/Frame and
--             Worker/Staged.
--   Table     The table block: normalizeTableRows of src/editor/blocks/structuredBlocks.ts
--             (Table/Rows) and the operations of src/editor/blocks/tableOperations.ts (Table/Edits).
--             Proofs in Table/Shape, Table/Kept, Table/Undo and Table/Labels.
--   Learning  Learning sessions: the types of src/models/cognitive/cognitive.ts and the turns of
--             src/services/cognitive/LearningSessionStateService.ts (Learning/Session:
--             applyLearningTurn is apply_learning_turn). Proofs in Learning/Consistent and
--             Learning/Progress.
--   Policy    src/models/agent/executionPolicy.ts (Policy/Normalize). Proofs in Policy/Bounds and
--             Policy/Stable.
--   Tabs      The open tabs of src/features/workspace/components/home/useWorkspaceTabs.ts
--             (Tabs/Handlers: its watchers and closing are functions of the refs and the open tabs).
--             Proofs in Tabs/Keys, Tabs/Trim, Tabs/Open and Tabs/Closing.
--   MindMap   src/models/workspace/mindMap.ts: the content and its children by parent
--             (MindMap/Content), readMindMapSubtree (MindMap/Subtree) and validateMindMapContent
--             (MindMap/Validate). Proofs in MindMap/Children, MindMap/Sorted, MindMap/Bounded and
--             MindMap/Complete on reading, and in MindMap/Accepted, MindMap/Below, MindMap/Rooted,
--             MindMap/Acceptance and MindMap/Parents on validation.
--   Home      src/models/home/informationHome.ts: values of type unknown (Home/Values), the types and
--             the default payload (Home/Widgets), normalizeInformationHomePayload (Home/Normalize) and
--             validateInformationHomePayload (Home/Validate). Proofs in Home/Limits, Home/Fine,
--             Home/Normal and Home/Sound.
--   Blocks    The top-level blocks of an editor document in src/editor/blocks/blockRanges.ts, with
--             normalizeIndentLevel of blockIndent.ts (Blocks/Ranges, Blocks/Controllable). Proofs in
--             Blocks/Placed, Blocks/Movable, Blocks/Swap and Blocks/Neighbours.
--   Base      Shared names, Boolean tests, lists, whole numbers, trimming, numbers as text, and
--             string maps and sets in insertion order.
--
-- How they interact. The front end runs the engine of Run for the state that it shows, and the
-- sidecar runs the host of Worker; a run of the host sends the events from which a front end drives
-- its engine. Autosave writes the documents that the runs read. The models of the parts are
-- independent: each takes the answers of the others as arguments of its handlers.
--
-- Modelling. State is a record, a handler is a function that returns the new state, and
-- asynchronous code is a step relation whose steps are the pieces of code between awaits, in any
-- order that the event loop allows. Times and revisions are natural numbers; `unknown` payloads are
-- values of a type parameter, but for those that Home reads. Calls to the outside (messages, calls
-- of the runtime, saves) are kept as lists in the state. Whether `new Response` throws, what
-- `localeCompare` returns and what `Math.round` makes of a number are parameters. A loop over a list
-- is structural recursion. The code's own limits on depth bound the recursion on mind maps: 256
-- levels in the validation, the depth of the query in reading. The other loops take fuel and return
-- `none` when it does not suffice: a column label is given its number, the loops on documents one
-- more than the number of documents. These are shown to suffice, but for the one that makes the
-- nodes of the sidebar from the lists that were filed. The digits of a version in a message take the
-- number and one more as fuel, and each round divides it by ten.
--
-- Not modelled: sorting and searching a table, the printing of mind maps, the empty paragraphs at
-- the end of a document, decoding of base64 chunks, the planner and the finalizer of sidecar runs
-- (their answers are steps of the environment), the normalisation of editor content before it is
-- serialised, a document service that rejects its promise, listeners that call back into the code
-- that calls them, the Rust core, the database, and the user interface.
pub mod Base
pub mod Documents
pub mod Autosave
pub mod Run
pub mod Worker
pub mod Table
pub mod Learning
pub mod Policy
pub mod Tabs
pub mod MindMap
pub mod Home
pub mod Blocks
