-- ===== src/Github/ListPrs.antt =====
-- internal/githubclt/listprs.go: the iterator over the open pull requests of a repository. GitHub is a
-- parameter: the pages that it returns one after the other, and for each query an error instead.
pub mod Laws
use Prim.Native.Nat.{compare}
use directorius.Prelude.{
  ℕ, String, Bool, not, Option, none, some, List, [], ◌∷◌, map, ◌==◌, if◌then◌else◌,
}
use directorius.Errors.{Err}
use directorius.Sorting.{sorted_func}

-- `Status`; the state is the text of a `StatusState`.
pub record Status : Type 0 where
  pub context : String
  pub state : String

-- `PR`
pub record Pr : Type 0 where
  pub number : ℕ
  pub branch : String
  pub base_branch : String
  pub head_commit : String
  pub author : String
  pub assignees : List String
  pub title : String
  pub link : String
  pub statuses : List Status
  pub labels : List String
  pub auto_merge_enabled : Bool

-- A node of `listPRsQuery`. A time is a number, and 0 is the zero time.
pub record PrNode : Type 0 where
  pub head_ref_name : String
  pub base_ref_name : String
  pub title : String
  pub permalink : String
  pub author : String
  pub assignees : List String
  pub number : ℕ
  pub labels : List String
  pub enabled_at : ℕ
  pub oid : String
  pub contexts : List (String × String)

-- `prsWithLabelQueryToPrsWithLabelResult` of one node, with `strings.ToLower` as a parameter.
unfoldable pub to_pr : (String → String) → PrNode → Pr
to_pr to_lower node = record {
  number = node.number;
  branch = node.head_ref_name;
  base_branch = node.base_ref_name;
  head_commit = node.oid;
  author = node.author;
  assignees = node.assignees;
  title = node.title;
  link = node.permalink;
  statuses = map (λ c. record { context = c.0; state = to_lower c.1 }) node.contexts;
  labels = node.labels;
  auto_merge_enabled = not (node.enabled_at == 0);
}

-- The pull requests of a page, by number.
unfoldable pub page_prs : (String → String) → List PrNode → List Pr
unfolding to_pr sorted_func
page_prs to_lower nodes =
    sorted_func (λ a b. compare a.number b.number) (map (to_pr to_lower) nodes)

-- The variables of the iterator: `hasNext` is true while a page is left. What the next queries meet:
-- an error, or, where there is none, the page.
pub record PrIter : Type 0 where
  pub prs : List Pr
  pub pages : List (List PrNode)
  pub failures : List (Option Err)

-- What `next` of `iter.Pull2` returns.
pub data Pulled : Type 0 where
  yielded : Pr → Pulled
  failed : Err → Pulled
  finished : Pulled

-- The loop of the iterator, up to the next call of `yield`.
unfoldable pub next_page :
    (String → String) → List (List PrNode) → List (Option Err) → List Pr → PrIter × Pulled
unfolding page_prs
next_page to_lower pages failures (p ∷ prs) =
    (record { prs = prs; pages = pages; failures = failures }, yielded p)
next_page to_lower [] failures [] = (record { prs = []; pages = []; failures = failures }, finished)
next_page to_lower (nodes ∷ pages) (some e ∷ failures) [] =
    (record { prs = []; pages = nodes ∷ pages; failures = failures }, failed e)
next_page to_lower (nodes ∷ pages) (none ∷ failures) [] =
    next_page to_lower pages failures (page_prs to_lower nodes)
next_page to_lower (nodes ∷ pages) [] [] = next_page to_lower pages [] (page_prs to_lower nodes)

-- `next`
unfoldable pub pull : (String → String) → PrIter → PrIter × Pulled
unfolding next_page
pull to_lower it = next_page to_lower it.pages it.failures it.prs

-- The iterator that `ListPRs` returns.
abbrev pub list_prs : List (List PrNode) → List (Option Err) → PrIter
list_prs pages failures = record { prs = []; pages = pages; failures = failures }
