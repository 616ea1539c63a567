-- ===== src/Github/ListPrs/Laws.antt =====
-- internal/githubclt/listprs.go: the iterator yields the pull requests of all pages, whatever queries
-- fail.
use directorius.Prelude.{String, ◌≡◌, refl, Option, none, some, List, [], ◌∷◌, ◌++◌, arith}
use directorius.Errors.{Err}
use directorius.Github.ListPrs.{
  Pr, PrNode, PrIter, Pulled, yielded, finished, page_prs, next_page, pull,
}

module _ (to_lower : String → String) where
  -- The pull requests of the pages, one page after the other.
  abbrev pub pages_prs : List (List PrNode) → List Pr
  pages_prs [] = []
  pages_prs (nodes ∷ pages) = page_prs to_lower nodes ++ pages_prs pages

  -- The pull requests that an iterator has still to yield.
  abbrev pub remaining : PrIter → List Pr
  remaining it = it.prs ++ pages_prs it.pages

  -- What a pull yields, before what is left.
  abbrev pub with_pulled : Pulled → List Pr → List Pr
  with_pulled (yielded p) prs = p ∷ prs
  with_pulled _ prs = prs

  next_page-remaining :
      (pages : List (List PrNode)) (failures : List (Option Err)) (prs : List Pr)
      → let (it, pulled) = next_page to_lower pages failures prs in
        with_pulled pulled (remaining it) ≡ prs ++ pages_prs pages
  unfolding next_page
  next_page-remaining pages failures (p ∷ prs) = refl
  next_page-remaining [] failures [] = refl
  next_page-remaining (nodes ∷ pages) (some e ∷ failures) [] = refl
  next_page-remaining (nodes ∷ pages) (none ∷ failures) [] =
      next_page-remaining pages failures (page_prs to_lower nodes)
  next_page-remaining (nodes ∷ pages) [] [] = next_page-remaining pages [] (page_prs to_lower nodes)

  -- A pull takes the first of the remaining pull requests, or none of them.
  pub pull-remaining :
      (it : PrIter)
      → with_pulled (pull to_lower it).1 (remaining (pull to_lower it).0) ≡ remaining it
  unfolding pull
  pull-remaining it = next_page-remaining it.pages it.failures it.prs

  next_page_finished :
      (pages : List (List PrNode)) (failures : List (Option Err)) (prs : List Pr)
      → (next_page to_lower pages failures prs).1 ≡ finished
      → prs ++ pages_prs pages ≡ []
  unfolding next_page
  next_page_finished pages failures (p ∷ prs) h = ground arith
  next_page_finished [] failures [] h = refl
  next_page_finished (nodes ∷ pages) (some e ∷ failures) [] h = ground arith
  next_page_finished (nodes ∷ pages) (none ∷ failures) [] h =
      next_page_finished pages failures (page_prs to_lower nodes) h
  next_page_finished (nodes ∷ pages) [] [] h =
      next_page_finished pages [] (page_prs to_lower nodes) h

  -- The iterator ends only when no pull request is left.
  pub pull_finished : (it : PrIter) → (pull to_lower it).1 ≡ finished → remaining it ≡ []
  unfolding pull
  pull_finished it h = next_page_finished it.pages it.failures it.prs h
