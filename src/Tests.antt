-- ===== src/Tests.antt =====
-- Tests and examples: the queues, answers and jobs on which the theorems are applied.
mod Queues
mod Processing
mod Statuses
mod Branches
mod Updates
mod Events
mod Syncing
mod Pools
mod Builds
mod Requests
use directorius.Prelude.{
  ℕ, refl, true, false, String, ◌==◌, Option, none, some, List, [], ◌∷◌, if◌then◌else◌, arith,
  Bool-cases, inl, inr,
}
use directorius.Prelude.Int.{pos}
use directorius.Errors.{Err, ok, err, message, Result, deadline_exceeded}
use directorius.Retry.{fire, ctx_done, Schedule}
use directorius.Github.CiStatus.{CiStatus, CiJobStatus}
use directorius.Github.Pages.{ReviewDecision, ReadyForMergeStatus}
use directorius.OrderedMap.{Element, Map, new, lookup, get}
use directorius.OrderedMap.Find.{find}
use directorius.OrderedMap.Laws
use directorius.MergeQueue.Queue.Valid.{IsValid}
use directorius.MergeQueue.PullRequest.{PullRequest, StatusState, Build}
use directorius.Github.Client.{UpdateBranchResult}
use directorius.MergeQueue.World.{Ref, Env, World}
use directorius.MergeQueue.Queue.{BranchId, Queue, State, RunningOperation}

abbrev pub pull_request : ℕ → PullRequest
pull_request n = record {
  number = n;
  branch = "feature";
  author = "alice";
  title = "a change";
  link = "";
  assignees = [];
  in_active_queue_since = 0;
  enqueued_at = n;
  priority = pos 0;
  suspend_count = 0;
  last_started_ci_builds = ("build", record { job_name = "build"; number = 7 }) ∷ [];
  ci_triggered_commit = "";
  state_unchanged_since = 0;
  github_status_last_set_state = record { commit = ""; state = StatusState.unset };
  has_head_label = false;
}

-- The pull request with the number n stands behind the pointer n.
abbrev pub world : World
world = record { prs = pull_request; calls = [] }

abbrev pub build_job : CiStatus → CiJobStatus
build_job status = record { name = "build"; status = status; required = true; job_url = "build/7" }

abbrev pub once : Schedule
once = fire 0 none (ctx_done deadline_exceeded)

-- GitHub and Jenkins answer at once; an approved pull request with the CI status of its one job.
abbrev pub env_with : CiStatus → Env
env_with status = record {
  now = 100;
  schedule = λ calls. once;
  respond = λ calls. none;
  ready_for_merge = λ calls. ok (record {
    review_decision = ReviewDecision.approved;
    ci_status = status;
    statuses = build_job status ∷ [];
    commit = "c1";
  });
  update_branch =
      λ calls. ok (some (record { changed = false; scheduled = false; head_commit_id = "c1" }));
  build = λ calls. ok 5;
  get_build = λ calls. ok (record { job_name = "build"; number = 8 });
  template = λ template n branch. ok template;
  jobs = ("build", "build-job") ∷ [];
  to_lower = λ text. text;
  parse_build_url = λ url. ok (record { job_name = "build"; number = 7 });
  ctx_err = λ calls. none;
}

abbrev pub env : Env
env = env_with CiStatus.expected

abbrev pub element : ℕ → Element Ref
element n = record { id = n; value = n }

abbrev pub active_two : Map Ref
active_two = record {
  order = element 1 ∷ element 2 ∷ [];
  m = (1, element 1) ∷ (2, element 2) ∷ [];
  fresh = 3;
}

-- A queue with two active pull requests and a suspended one.
abbrev pub queue : Queue
queue = record {
  base_branch = record { repository_owner = "o"; repository = "r"; branch = "main" };
  active = active_two;
  suspended = (3, 3) ∷ [];
  action_pool = [];
  executing = some (record { pr = 1; canceled = false });
  process_pr_runs = 0;
  stale_timeout = 1000;
  update_branch_poll_interval = 2;
  head_label = "first";
  paused = false;
}

abbrev pub state : State
state = record { world = world; q = queue }

-- A queue with a suspended pull request only.
abbrev pub state_idle : State
state_idle = record state { q = record queue { active = new } }

pub active_two-IsValid : Laws.IsValid active_two
unfolding find lookup
active_two-IsValid = record {
  below = λ i e h. ground arith;
  listed = λ k e h. ground arith;
  keyed = λ i e h. (i, ground arith);
  separate = λ j k e f h. ground arith;
}

pub state-IsValid : IsValid world queue
unfolding lookup get
state-IsValid = record {
  active_valid = active_two-IsValid;
  active_numbered = λ k r e. ground arith;
  suspended_numbered = λ k r e. ground arith;
  is_apart = record {
    apart =
        λ n. elim (Bool-cases (3 == n)) [ inl t ↦ inr (ground arith) | inr f ↦ inl (ground arith) ];
  };
  entries_numbered = (refl, tt);
}
