-- ===== src/Agent/Text.antt =====
-- Go's functions on texts that the agent uses, over lists of code points: strings.TrimSpace, Fields,
-- Split, Cut, HasPrefix, EqualFold, and strconv.Atoi.
use hermes_ai_devops.Common.{
  ℕ, ◌+◌, Bool, true, false, not, ◌&&◌, ◌||◌, Option, none, some, List, [], ◌∷◌, ◌++◌, leb,
  if◌then◌else◌, ◌==◌, nat_eq, Eq,
}
use hermes_ai_devops.Common.Text.{codes}

abbrev pub Text : Type 0
Text = List ℕ

abbrev pub same_text : Text → Text → Bool
same_text [] [] = true
same_text [] (y ∷ ys) = false
same_text (x ∷ xs) [] = false
same_text (x ∷ xs) (y ∷ ys) = x == y && same_text xs ys

instance abbrev pub text_eq : Eq Text
text_eq = record { equals = same_text }

abbrev pub blank : Text
blank = []

-- unicode.IsSpace
abbrev pub is_space : ℕ → Bool
is_space c =
    (leb 9 c && leb c 13)
    || c == 32
    || c == 133
    || c == 160
    || c == 5760
    || (leb 8192 c && leb c 8202)
    || c == 8232
    || c == 8233
    || c == 8239
    || c == 8287
    || c == 12288

unfoldable pub trim_left : Text → Text
trim_left [] = []
trim_left (c ∷ cs) = let rest = trim_left cs in if is_space c then rest else c ∷ cs

unfoldable pub trim_right : Text → Text
trim_right [] = []
trim_right (c ∷ cs) = elim (trim_right cs) [
  | [] ↦ if is_space c then [] else c ∷ []
  | d ∷ ds ↦ c ∷ d ∷ ds
]

unfoldable pub trim_space : Text → Text
unfolding trim_left trim_right
trim_space t = trim_right (trim_left t)

-- A word is dropped if it is empty.
abbrev pub add_word : Text → List Text → List Text
add_word [] ws = ws
add_word (c ∷ cs) ws = (c ∷ cs) ∷ ws

-- strings.FieldsFunc: the first word may be empty until the end, where it is dropped.
unfoldable pub words_by : (ℕ → Bool) → Text → Text × List Text
words_by stop [] = ([], [])
words_by stop (c ∷ cs) =
    let (word, ws) = words_by stop cs in if stop c then ([], add_word word ws) else (c ∷ word, ws)

unfoldable pub fields_by : (ℕ → Bool) → Text → List Text
unfolding words_by
fields_by stop t = let (word, ws) = words_by stop t in add_word word ws

-- strings.Fields
unfoldable pub fields : Text → List Text
unfolding fields_by
fields t = fields_by is_space t

-- strings.Split by one code point: the first part, and the others.
unfoldable pub split_at : ℕ → Text → Text × List Text
split_at sep [] = ([], [])
split_at sep (c ∷ cs) =
    let (part, rest) = split_at sep cs in if c == sep then ([], part ∷ rest) else (c ∷ part, rest)

unfoldable pub split : ℕ → Text → List Text
unfolding split_at
split sep t = let (part, rest) = split_at sep t in part ∷ rest

-- strings.Cut by one code point; none if it does not occur.
unfoldable pub cut : ℕ → Text → Option (Text × Text)
cut sep [] = none
cut sep (c ∷ cs) = elim (cut sep cs) [
  | none ↦ if c == sep then some ([], cs) else none
  | some (before, after) ↦ if c == sep then some ([], cs) else some (c ∷ before, after)
]

abbrev pub before_cut : ℕ → Text → Text
before_cut sep t = elim (cut sep t) [ none ↦ t | some (before, after) ↦ before ]

abbrev pub to_lower_code : ℕ → ℕ
to_lower_code c = if leb 65 c && leb c 90 then c + 32 else c

-- strings.ToLower, for the ASCII letters.
unfoldable pub to_lower : Text → Text
to_lower [] = []
to_lower (c ∷ cs) = to_lower_code c ∷ to_lower cs

-- strings.EqualFold, for the ASCII letters.
unfoldable pub same_fold : Text → Text → Bool
unfolding to_lower
same_fold a b = to_lower a == to_lower b

unfoldable pub has_prefix : Text → Text → Bool
has_prefix [] t = true
has_prefix (p ∷ ps) [] = false
has_prefix (p ∷ ps) (c ∷ cs) = p == c && has_prefix ps cs

abbrev pub any_text : Text → List Text → Bool
any_text t [] = false
any_text t (x ∷ xs) = x == t || any_text t xs

abbrev pub last_or : Text → List Text → Text
last_or d [] = d
last_or d (x ∷ xs) = last_or x xs

-- A path without its trailing slashes.
abbrev strip_slashes : Text → Text
strip_slashes [] = []
strip_slashes (c ∷ cs) = elim (strip_slashes cs) [
  | [] ↦ if c == 47 then [] else c ∷ []
  | d ∷ ds ↦ c ∷ d ∷ ds
]

-- path.Base
unfoldable pub path_base : Text → Text
unfolding split
path_base [] = codes "."
path_base (c ∷ cs) = elim (strip_slashes (c ∷ cs)) [
  | [] ↦ codes "/"
  | d ∷ ds ↦ last_or [] (split 47 (d ∷ ds))
]

abbrev drop_one : List Text → List Text
drop_one [] = []
drop_one (x ∷ xs) = xs

abbrev can_go_up : List Text → Bool
can_go_up [] = false
can_go_up (x ∷ xs) = not (x == codes "..")

-- The elements of a path that is being cleaned, the last first. A ".." takes back the last element;
-- a rooted path has none above it, and another one keeps it.
abbrev clean_onto : Bool → List Text → List Text → List Text
clean_onto rooted done [] = done
clean_onto rooted done (e ∷ es) =
    let skip = clean_onto rooted done es in
    let keep = clean_onto rooted (e ∷ done) es in
    let up = clean_onto rooted (drop_one done) es in
    if e == [] || e == codes "."
    then skip
    else if e == codes ".."
    then (if can_go_up done then up else if rooted then skip else keep)
    else keep

abbrev join_slash : List Text → Text → Text
join_slash [] acc = acc
join_slash (e ∷ es) [] = join_slash es e
join_slash (e ∷ es) (c ∷ cs) = join_slash es (e ++ 47 ∷ c ∷ cs)

abbrev is_rooted : Text → Bool
is_rooted [] = false
is_rooted (c ∷ cs) = c == 47

-- path.Clean
unfoldable pub path_clean : Text → Text
unfolding split
path_clean p =
    let body = join_slash (clean_onto (is_rooted p) [] (split 47 p)) [] in
    if is_rooted p then 47 ∷ body else if body == [] then codes "." else body

-- path.Join of two elements, of which an empty one is left out.
unfoldable pub path_join : Text → Text → Text
unfolding path_clean
path_join a b =
    if a == [] && b == []
    then []
    else if a == []
    then path_clean b
    else if b == []
    then path_clean a
    else path_clean (a ++ 47 ∷ b)

-- What stands up to the last slash, that slash included.
abbrev up_to_slash : Text → Text
up_to_slash [] = []
up_to_slash (c ∷ cs) = elim (up_to_slash cs) [
  | [] ↦ if c == 47 then c ∷ [] else []
  | d ∷ ds ↦ c ∷ d ∷ ds
]

-- path.Dir
unfoldable pub path_dir : Text → Text
unfolding path_clean
path_dir p = path_clean (up_to_slash p)
