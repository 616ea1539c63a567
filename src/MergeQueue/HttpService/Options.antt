-- ===== src/MergeQueue/HttpService/Options.antt =====
-- internal/mergequeue/pages/pagestypes/pullrequest.go: the priorities that the list page offers for a pull
-- request, and what its form sends for them.
use directorius.Prelude.{
  zero, suc, String, Bool, true, false, ◌≡◌, refl, ap, List, [], ◌∷◌, ◌++◌, map, str_eq, eq_iff,
  if◌then◌else◌, arith, Bool-cases, inl, inr, ◌==◌,
}
use directorius.Prelude.Int.{ℤ, pos, negsuc, compare_ℤ}
use directorius.Strconv.{
  itoa, itoa_of, codes, parse_int, parse_digits, digits_value, int32_limit, int64_limit,
}
use directorius.Errors.{Result, ok, err}
use directorius.MergeQueue.Queue.{BranchId}
use directorius.MergeQueue.HttpService.{
  Form, PrPriorityUpdates, is_less, add_update, add_priority, add_value, add_values,
  form_to_priority_updates,
}
use directorius.MergeQueue.HttpService.Laws.{is_selectable}

-- `Option` without its text: the identifier is the number of the pull request
pub record PageOption : Type 0 where
  pub id : String
  pub value : String
  pub selected : Bool

abbrev pub is_same : ℤ → ℤ → Bool
is_same (pos m) (pos n) = m == n
is_same (negsuc m) (negsuc n) = m == n
is_same _ _ = false

-- `priorityOption`
unfoldable pub priority_option : String → ℤ → ℤ → PageOption
unfolding itoa
priority_option id priority current = record {
  id = id;
  value = if is_same priority current then "unchanged" else itoa priority;
  selected = is_same priority current;
}

-- `PRPriorityOptions`
unfoldable pub pr_priority_options : String → ℤ → List PageOption
unfolding priority_option
pr_priority_options id current =
    map (λ priority. priority_option id priority current) (pos 2 ∷ pos 1 ∷ pos 0 ∷ negsuc 0 ∷ [])

-- The form of a queue with one pull request, for the chosen option.
unfoldable pub page_form : BranchId → PageOption → Form
page_form b o =
    ("owner", b.repository_owner ∷ [])
    ∷ ("repository", b.repository ∷ [])
    ∷ ("basebranch", b.branch ∷ [])
    ∷ (o.id, o.value ∷ [])
    ∷ []

is_ok : Result ℤ → Bool
is_ok (ok _) = true
is_ok (err _) = false

-- The text of a number is none of the other keys of the form.
number-other_key :
    (id name : String) (n : ℤ)
    → parse_int int64_limit (codes id) ≡ ok n
    → is_ok (parse_int int64_limit (codes name)) ≡ false
    → str_eq id name ≡ false
unfolding is_ok
number-other_key id name n h f = elim (Bool-cases (str_eq id name)) [
  | inr g ↦ g
  | inl t ↦
      let same : id ≡ name = (eq_iff id name).0 t in
      absurd (ground (arith, ap is_ok h, ap (λ k. is_ok (parse_int int64_limit (codes k))) same))
]

added : ℤ → ℤ → ℤ → PrPriorityUpdates → PrPriorityUpdates
added n i current result =
    if is_same i current
    then result
    else record result { updates = result.updates ++ record { pr_number = n; priority = i } ∷ [] }

module _ (id : String) (n current : ℤ) (result : PrPriorityUpdates)
    (h : parse_int int64_limit (codes id) ≡ ok n) where
  unchanged-add : add_priority id "unchanged" result ≡ ok result
  unfolding add_priority
  unchanged-add = ground (arith, h)

  text-add :
      (text : String) (i : ℤ)
      → parse_int int32_limit (codes text) ≡ ok i
      → str_eq text "unchanged" ≡ false
      → is_less i (negsuc 0) ≡ false
      → is_less (pos 2) i ≡ false
      → add_priority id text result
        ≡ ok (record result {
          updates = result.updates ++ record { pr_number = n; priority = i } ∷ [];
        })
  unfolding add_priority add_update
  text-add text i p u low high = ground (arith, h, p)

  -- An option whose text is read as its priority adds the priority, unless it is the current one.
  option-add :
      (i : ℤ)
      → parse_int int32_limit (codes (itoa i)) ≡ ok i
      → str_eq (itoa i) "unchanged" ≡ false
      → is_less i (negsuc 0) ≡ false
      → is_less (pos 2) i ≡ false
      → add_priority id (priority_option id i current).value result ≡ ok (added n i current result)
  unfolding priority_option added
  option-add i p u low high = elim (Bool-cases (is_same i current)) [
    | inl t ↦ rw t unchanged-add
    | inr f ↦ rw f (text-add (itoa i) i p u low high)
  ]

  chosen-add :
      (i : ℤ)
      → is_selectable i ≡ true
      → add_priority id (priority_option id i current).value result ≡ ok (added n i current result)
  unfolding itoa itoa_of parse_int codes parse_digits digits_value compare_ℤ
  chosen-add (pos zero) s = option-add (pos zero) refl refl refl refl
  chosen-add (pos (suc zero)) s = option-add (pos (suc zero)) refl refl refl refl
  chosen-add (pos (suc (suc zero))) s = option-add (pos (suc (suc zero))) refl refl refl refl
  chosen-add (pos (suc (suc (suc m)))) s = absurd (ground arith)
  chosen-add (negsuc zero) s = option-add (negsuc zero) refl refl refl refl
  chosen-add (negsuc (suc m)) s = absurd (ground arith)

-- What the page sends is read back: for the number of a pull request and the option of a priority from -1 to
-- 2, the form names the queue and sets that priority, and it sets none if the priority is the current one.
pub form_to_priority_updates-page :
    (b : BranchId) (id : String) (n i current : ℤ)
    → parse_int int64_limit (codes id) ≡ ok n
    → is_selectable i ≡ true
    → form_to_priority_updates (page_form b (priority_option id i current))
      ≡ ok (record {
        branch_id = b;
        updates = if is_same i current then [] else record { pr_number = n; priority = i } ∷ [];
      })
unfolding form_to_priority_updates page_form add_values add_value priority_option added is_ok
    parse_int codes parse_digits
form_to_priority_updates-page b id n i current h s =
    let start : PrPriorityUpdates = record { branch_id = b; updates = [] } in
    let not_branch : str_eq id "basebranch" ≡ false = number-other_key id "basebranch" n h refl in
    let not_owner : str_eq id "owner" ≡ false = number-other_key id "owner" n h refl in
    let not_repo : str_eq id "repository" ≡ false = number-other_key id "repository" n h refl in
    ground (arith, chosen-add id n current start h i s, not_branch, not_owner, not_repo)
