-- ===== src/Lib.antt =====
-- Directorius serializes the merges of GitHub pull requests: it keeps a queue of pull requests for
-- each base branch, keeps the first one of a queue up to date with its base branch, starts its CI
-- jobs at Jenkins, and suspends it when it can not be merged.
--
-- The parts and the files that model them:
--
-- - internal/mergequeue/queue.go is the queue. MergeQueue/Queue models its state and the operations
--   that enqueue, dequeue, suspend and resume (`Enqueue`, `Dequeue`, `suspend`, `ResumePR`,
--   `ResumeAllPRs`), MergeQueue/Manage those that sort, pause and stop it and set fields of pull
--   requests, MergeQueue/World what they send to GitHub, and MergeQueue/OrderBefore `orderBefore`.
--   The children of MergeQueue/Queue state what the operations do to the places of the pull requests
--   (Place), the invariant of the state (Valid), when processing is scheduled (Head), and which pull
--   requests they leave alone (Free, Spared).
-- - internal/mergequeue/queue_processpr.go decides what happens to the first pull request:
--   MergeQueue/ProcessPr holds the requests and tests, MergeQueue/Eval `evalPRAction`, and
--   MergeQueue/Process `processPR`, which carries out the actions, and
--   `resumeIfPRMergeStatusPositive`.
-- - internal/mergequeue/coordinator.go keeps a queue for each base branch. MergeQueue/Coordinator
--   models the operations on a branch (`Enqueue`, `Dequeue`, `ChangeBaseBranch`, `Resume`), with the
--   theorems in its children Moves, Valid, Keeps and Kept, and MergeQueue/Coordinator/Repository those on the
--   queues of a repository. MergeQueue/Events models the webhook events: Handlers the actions of
--   `processPullRequestEvent`, Checks pushes, reviews, check runs and commit statuses, Dispatch
--   `processEvent`, the event loop and `Stop`. Its children Reached, Isolation and Effects hold the
--   theorems: Reached is a step relation of all that a coordinator runs.
-- - internal/mergequeue/sync.go synchronises the queues with GitHub at the start: MergeQueue/Sync models
--   which actions a pull request needs, Fetch the loop that reads the pull requests from the iterator
--   of internal/githubclt/listprs.go (Github/ListPrs), Perform the loop that carries out the actions, and
--   Init `InitSync`. The other children hold the theorems.
-- - internal/mergequeue/httpservice.go: MergeQueue/HttpService models the handlers that set priorities and
--   pause or resume a queue, from the values of their forms, and in its child Options the priorities that
--   internal/mergequeue/pages offers.
-- - internal/mergequeue/pullrequest.go: MergeQueue/PullRequest; internal/mergequeue/ci.go:
--   MergeQueue/Ci.
-- - internal/githubclt/readyformergestatus.go asks GitHub for the review decision and the CI
--   statuses: Github/CiStatus and Github/Pages, with the theorems in Github/Summary, Github/Reports,
--   Github/Ready and Github/Paging.
-- - internal/githubclt/client.go: Github/Client models `UpdateBranch`, `PRIsUptodate` and `RemoveLabel`
--   from the answers of the REST API. The queue takes the result of an update as an answer.
-- - internal/retry/retryer.go repeats failed requests: Retry. Errors holds the error values of
--   internal/goorderr, internal/githubclt/errors.go and internal/mergequeue/errors.go.
-- - internal/routines/pool.go runs the work of a queue: Routines/Pool is a step relation of its
--   scheduler, its workers and their channels.
-- - Strconv holds what the program uses of Go's package strconv.
-- - internal/jenkins is the client of Jenkins: Jenkins/BuildUrl models `ParseBuildURL`, on a text as the
--   list of the codes of its characters, and Jenkins/Client `GetBuildURL`, `GetBuildFromQueueItemID` and
--   `Build` from the answers of Jenkins, with the theorems in the children RoundTrip, Answers and Polling.
--   The queue takes the results of these calls as answers.
-- - internal/orderedmap and internal/linkedlist hold the active queue: OrderedMap.
--
-- How the state corresponds. A queue and what it shares with the others, that is the pull requests
-- behind their pointers and the requests sent so far, is a `State`; an operation takes a state and
-- returns the new one with its results. A pointer to a pull request is a number, so that what one
-- part writes through it the others read. The routine pool of a queue stands as the list of the
-- waiting work, the oldest first; `work_next` is a worker that takes work and runs it, in the order
-- that the theorems of Routines/Pool state. New memory is an address that no queue points to
-- (`next_ref`). The operations run under the lock of the queue, one at a time; `processPR` is one
-- step, so what another operation does between two of its requests is not modelled.
--
-- GitHub, Jenkins and the clock are parameters: an `Env` gives the time, the answers and, for every
-- run of the retryer, the schedule of what its `select` meets. An answer may depend on all requests
-- so far. Every schedule ends, as the context of every operation has a deadline.
--
-- Numbers. Times and durations are nanoseconds as natural numbers, with 0 as the zero time. The
-- counters `SuspendCount` and `processPRRuns` wrap around at 2^32 and 2^64.
--
-- Fuel. `review_and_ci_status` takes the number of queries that it may make; as many as there are
-- pages are enough. The loop of `Foreach` takes one round for each element of the list, which is
-- enough for a body that adds none. `fetch_all` takes one round for each pull request and one more; its
-- fuel in `sync` is that number, and a failed query takes no round, as the retryer repeats it.
--
-- Not modelled: metrics, log output, the other parts of the HTML pages, reading the configuration, the
-- decoding of webhooks, the sending of requests, and the templates of jobs; these only pass data in or
-- out. The functions that create and start a coordinator are left out.
pub mod Prelude
pub mod Errors
pub mod Github
pub mod Sorting
pub mod Strconv
pub mod OrderedMap
pub mod Retry
pub mod Jenkins
pub mod Routines
pub mod MergeQueue
pub mod Tests
