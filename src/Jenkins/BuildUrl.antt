-- ===== src/Jenkins/BuildUrl.antt =====
-- internal/jenkins/build.go: `ParseBuildURL`, on the path of a URL as the list of the codes of its
-- characters. `url.Parse`, which finds the path, is left to the caller.
pub mod RoundTrip
use directorius.Prelude.{
  ℕ, ◌+◌, ◌-◌, ◌*◌, Bool, true, false, ◌&&◌, ◌||◌, not, Option, none, some, List, [], ◌∷◌, ◌++◌,
  ltb, leb, ◌==◌, if◌then◌else◌,
}
use directorius.Strconv.{
  Text, is_digit, is_empty_text, digits_value, int64_limit, int32_limit, negative, parse_digits,
  parse_int,
}
use directorius.Errors.{Result, ok, err, message, wrapped}

abbrev pub slash : ℕ
slash = b'/'

-- `/job/`
abbrev pub job_prefix : Text
job_prefix = b'/' ∷ b'j' ∷ b'o' ∷ b'b' ∷ b'/' ∷ []

-- What `\S` does not match: tab, line feed, form feed, carriage return and space.
abbrev pub is_space : ℕ → Bool
is_space c = c == 9 || c == 10 || c == 12 || c == 13 || c == 32

unfoldable pub leading_digits : Text → Text
leading_digits [] = []
leading_digits (c ∷ cs) = let rest = leading_digits cs in if is_digit c then c ∷ rest else []

-- The match of `(\S)*/\d+`: what `\S` takes, which is as much as possible, and the digits.
unfoldable pub match_build : Text → Option (Text × Text)
unfolding leading_digits
match_build [] = none
match_build (c ∷ cs) =
    let longer = match_build cs in
    let digits = leading_digits cs in
    let here : Option (Text × Text) =
      if c == slash && not (is_empty_text digits) then some ([], digits) else none in
    if is_space c then none else elim longer [ some (job, nr) ↦ some (c ∷ job, nr) | none ↦ here ]

-- `strings.TrimPrefix`, and whether the prefix was there
unfoldable pub trim_prefix : Text → Text → Option Text
trim_prefix [] cs = some cs
trim_prefix (p ∷ ps) [] = none
trim_prefix (p ∷ ps) (c ∷ cs) = let rest = trim_prefix ps cs in if c == p then rest else none

-- `normalizeBuildURL`: the match of `reJenkinsBuildURLPath`, without `/job/` and in its two parts
unfoldable pub normalize_build_url : Text → Result (Text × Text)
unfolding trim_prefix match_build
normalize_build_url path = elim (trim_prefix job_prefix path) [
  | none ↦ err (message "url path does not match the expected pattern")
  | some cs ↦ elim (match_build cs) [
    | none ↦ err (message "url path does not match the expected pattern")
    | some parts ↦ ok parts
  ]
]

-- The elements of a path.
unfoldable pub split : Text → List Text
split [] = [] ∷ []
split (c ∷ cs) =
    let rest = split cs in
    if c == slash
    then [] ∷ rest
    else elim rest [ [] ↦ (c ∷ []) ∷ [] | word ∷ words ↦ (c ∷ word) ∷ words ]

unfoldable pub join : List Text → Text
join [] = []
join (word ∷ []) = word
join (word ∷ next ∷ words) = word ++ slash ∷ join (next ∷ words)

abbrev pub text_eq : Text → Text → Bool
text_eq [] [] = true
text_eq (c ∷ cs) (d ∷ ds) = let rest = text_eq cs ds in c == d && rest
text_eq _ _ = false

-- `.` and `..`
abbrev pub is_dot : Text → Bool
is_dot word = text_eq word (b'.' ∷ [])

abbrev pub is_dot_dot : Text → Bool
is_dot_dot word = text_eq word (b'.' ∷ b'.' ∷ [])

abbrev pub tail : List Text → List Text
tail [] = []
tail (_ ∷ words) = words

-- The loop of `path.Clean` over the elements of a rooted path, the last one that is kept first.
unfoldable pub clean_elements : List Text → List Text → List Text
clean_elements kept [] = kept
clean_elements kept (word ∷ words) =
    clean_elements
      (if is_empty_text word || is_dot word
        then kept
        else if is_dot_dot word
        then tail kept
        else word ∷ kept)
      words

unfoldable pub reverse_onto : List Text → List Text → List Text
reverse_onto [] kept = kept
reverse_onto (word ∷ words) kept = reverse_onto words (word ∷ kept)

-- `path.Clean` of a rooted path
unfoldable pub clean : Text → Text
unfolding split join clean_elements reverse_onto
clean path = slash ∷ join (reverse_onto (clean_elements [] (split path)) [])

-- `Build` without its URL
pub record ParsedBuild : Type 0 where
  pub job_name : Text
  pub number : ℕ

-- `ParseBuildURL`, for a URL with the path: `path.Base` of the match is its digits, and `path.Dir` the
-- cleaned path before them.
unfoldable pub parse_build_url : Text → Result ParsedBuild
unfolding normalize_build_url clean digits_value trim_prefix
parse_build_url path = elim (normalize_build_url path) [
  | err e ↦ err e
  | ok (job, nr) ↦
      let dir = clean (job_prefix ++ (job ++ slash ∷ [])) in
      let name : Text = elim (trim_prefix job_prefix dir) [ some rest ↦ rest | none ↦ dir ] in
      if not (ltb (digits_value 0 nr) int64_limit)
      then err (wrapped "converting last path element failed" (message "value out of range"))
      else if is_empty_text name
      then err (message "extracting job name from url failed")
      else ok (record { job_name = name; number = digits_value 0 nr })
]
