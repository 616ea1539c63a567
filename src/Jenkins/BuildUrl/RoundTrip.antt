-- ===== src/Jenkins/BuildUrl/RoundTrip.antt =====
-- internal/jenkins/build.go: `ParseBuildURL` reads what the URL of a build is made of.
use directorius.Prelude.{
  Bool, true, false, ◌&&◌, ◌||◌, not, ◌≡◌, refl, ap, ◌∙◌, none, some, List, [], ◌∷◌, ◌++◌, all, ltb,
  ◌==◌, arith,
}
use directorius.Strconv.{Text, is_digit, is_empty_text, digits_value, int64_limit}
use directorius.Errors.{ok}
use directorius.Jenkins.BuildUrl.{
  slash, job_prefix, is_space, leading_digits, match_build, trim_prefix, normalize_build_url, split,
  join, is_dot, is_dot_dot, clean_elements, reverse_onto, clean, parse_build_url,
}

-- An element of the path of a job: not empty, not `.` or `..`, and without a slash or white space.
abbrev pub is_word : Text → Bool
is_word word =
    not (is_empty_text word)
    && not (is_dot word)
    && not (is_dot_dot word)
    && all (λ c. not (c == slash || is_space c)) word

-- `/job/`, the elements of the path of a job, its build number, and what follows.
unfoldable pub build_path : List Text → Text → Text → Text
unfolding join
build_path job digits suffix = job_prefix ++ (join job ++ slash ∷ (digits ++ suffix))

append_assoc : (xs ys zs : Text) → (xs ++ ys) ++ zs ≡ xs ++ (ys ++ zs)
append_assoc [] ys zs = refl
append_assoc (x ∷ xs) ys zs = ap (λ l. x ∷ l) (append_assoc xs ys zs)

append_none : {A : Type 0} (xs : List A) → xs ++ [] ≡ xs
append_none [] = refl
append_none (x ∷ xs) = ap (λ l. x ∷ l) (append_none xs)

-- Digits are not part of a later match.
match_build-digits :
    (digits suffix : Text)
    → all is_digit digits ≡ true
    → match_build suffix ≡ none
    → match_build (digits ++ suffix) ≡ none
unfolding match_build
match_build-digits [] suffix h n = n
match_build-digits (c ∷ digits) suffix h n =
    ground (arith, match_build-digits digits suffix (ground arith) n)

leading_digits-append :
    (digits suffix : Text)
    → all is_digit digits ≡ true
    → leading_digits suffix ≡ []
    → leading_digits (digits ++ suffix) ≡ digits
unfolding leading_digits
leading_digits-append [] suffix h n = n
leading_digits-append (c ∷ digits) suffix h n =
    ground (arith, leading_digits-append digits suffix (ground arith) n)

match_build-slash :
    (digits suffix : Text)
    → all is_digit digits ≡ true
    → is_empty_text digits ≡ false
    → leading_digits suffix ≡ []
    → match_build suffix ≡ none
    → match_build (slash ∷ (digits ++ suffix)) ≡ some ([], digits)
unfolding match_build
match_build-slash digits suffix h e l n =
    ground (arith, match_build-digits digits suffix h n, leading_digits-append digits suffix h l)

match_build-append :
    (word cs job nr : Text)
    → all (λ c. not (is_space c)) word ≡ true
    → match_build cs ≡ some (job, nr)
    → match_build (word ++ cs) ≡ some (word ++ job, nr)
unfolding match_build
match_build-append [] cs job nr h e = e
match_build-append (c ∷ word) cs job nr h e =
    ground (arith, match_build-append word cs job nr (ground arith) e)

no_space :
    (word : Text)
    → all (λ c. not (c == slash || is_space c)) word ≡ true
    → all (λ c. not (is_space c)) word ≡ true
no_space [] h = refl
no_space (c ∷ word) h = ground (arith, no_space word (ground arith))

no_space-append :
    (xs ys : Text)
    → all (λ c. not (is_space c)) xs ≡ true
    → all (λ c. not (is_space c)) ys ≡ true
    → all (λ c. not (is_space c)) (xs ++ ys) ≡ true
no_space-append [] ys h k = k
no_space-append (c ∷ xs) ys h k = ground (arith, no_space-append xs ys (ground arith) k)

join-no_space :
    (job : List Text) → all is_word job ≡ true → all (λ c. not (is_space c)) (join job) ≡ true
unfolding join
join-no_space [] h = refl
join-no_space (word ∷ []) h = no_space word (ground arith)
join-no_space (word ∷ next ∷ job) h =
    no_space-append word (slash ∷ join (next ∷ job)) (no_space word (ground arith))
      (ground (arith, join-no_space (next ∷ job) (ground arith)))

pub split-word :
    (word cs : Text)
    → all (λ c. not (c == slash || is_space c)) word ≡ true
    → split (word ++ slash ∷ cs) ≡ word ∷ split cs
unfolding split
split-word [] cs h = refl
split-word (c ∷ word) cs h = ground (arith, split-word word cs (ground arith))

split-join :
    (word : Text) (job : List Text)
    → all is_word (word ∷ job) ≡ true
    → split (join (word ∷ job) ++ slash ∷ []) ≡ (word ∷ job) ++ [] ∷ []
unfolding join split
split-join word [] h = split-word word [] (ground arith)
split-join word (next ∷ job) h =
    ap split (append_assoc word (slash ∷ join (next ∷ job)) (slash ∷ []))
    ∙ (split-word word (join (next ∷ job) ++ slash ∷ []) (ground arith)
        ∙ ap (λ l. word ∷ l) (split-join next job (ground arith)))

clean_elements-words :
    (job kept : List Text)
    → all is_word job ≡ true
    → clean_elements kept (job ++ [] ∷ []) ≡ reverse_onto job kept
unfolding clean_elements reverse_onto
clean_elements-words [] kept h = refl
clean_elements-words (word ∷ job) kept h =
    ground (arith, clean_elements-words job (word ∷ kept) (ground arith))

reverse_onto-twice :
    (xs ys zs : List Text) → reverse_onto (reverse_onto xs ys) zs ≡ reverse_onto ys (xs ++ zs)
unfolding reverse_onto
reverse_onto-twice [] ys zs = refl
reverse_onto-twice (x ∷ xs) ys zs = reverse_onto-twice xs (x ∷ ys) zs

clean-job :
    (word : Text) (job : List Text)
    → all is_word (word ∷ job) ≡ true
    → clean (job_prefix ++ (join (word ∷ job) ++ slash ∷ [])) ≡ job_prefix ++ join (word ∷ job)
unfolding clean split clean_elements reverse_onto join
clean-job word job h =
    let path = join (word ∷ job) ++ slash ∷ [] in
    let first : Text = b'j' ∷ b'o' ∷ b'b' ∷ [] in
    let onto : List Text → Text = λ kept. slash ∷ join (reverse_onto kept []) in
    let words = (word ∷ job) ++ [] ∷ [] in
    ap (λ l. onto (clean_elements (first ∷ []) l)) (split-join word job h)
    ∙ (ap onto (clean_elements-words (word ∷ job) (first ∷ []) h)
        ∙ (ap (λ l. slash ∷ join l) (reverse_onto-twice (word ∷ job) (first ∷ []) [])
            ∙ ap (λ l. slash ∷ join (first ∷ l)) (append_none (word ∷ job))))

join-not_empty :
    (word : Text) (job : List Text)
    → all is_word (word ∷ job) ≡ true
    → is_empty_text (join (word ∷ job)) ≡ false
unfolding join
join-not_empty [] job h = absurd (ground arith)
join-not_empty (c ∷ word) [] h = refl
join-not_empty (c ∷ word) (next ∷ job) h = refl

normalize-build_path :
    (job : List Text) (digits suffix : Text)
    → all is_word job ≡ true
    → all is_digit digits ≡ true
    → is_empty_text digits ≡ false
    → leading_digits suffix ≡ []
    → match_build suffix ≡ none
    → normalize_build_url (build_path job digits suffix) ≡ ok (join job, digits)
unfolding normalize_build_url build_path trim_prefix
normalize-build_path job digits suffix h d e l n =
    let matched =
      match_build-append (join job) (slash ∷ (digits ++ suffix)) [] digits (join-no_space job h)
        (match_build-slash digits suffix d e l n) in
    ground (arith, matched, append_none (join job))

-- `ParseBuildURL` reads the path of a build back: the name of its job, which is one or more elements
-- that are not empty, not `.` or `..` and have no slash or white space, and its number, which is below
-- 2^63. What follows the number, such as `/display/redirect`, is dropped, if it starts with no digit
-- and has no slash that is followed by a digit before its first white space.
pub parse_build_url-build_path :
    (word : Text) (job : List Text) (digits suffix : Text)
    → all is_word (word ∷ job) ≡ true
    → all is_digit digits ≡ true
    → is_empty_text digits ≡ false
    → ltb (digits_value 0 digits) int64_limit ≡ true
    → leading_digits suffix ≡ []
    → match_build suffix ≡ none
    → parse_build_url (build_path (word ∷ job) digits suffix)
      ≡ ok (record { job_name = join (word ∷ job); number = digits_value 0 digits })
unfolding parse_build_url trim_prefix
parse_build_url-build_path word job digits suffix h d e b l n =
    let read = normalize-build_path (word ∷ job) digits suffix h d e l n in
    ground (arith, read, clean-job word job h, b, join-not_empty word job h)
