-- ===== src/Agent/Server/Names.antt =====
-- The name of the directory of a run (agent/internal/server/tasks.go, safeOutDirName), as the list of
-- its characters. The digest of a text is an argument.
use hermes_ai_devops.Common.{
  ℕ, zero, suc, ◌+◌, ◌-◌, ◌*◌, ◌/◌, ◌%◌, ◌≤◌, ◌<◌, ◌≡◌, ◌≢◌, refl, ap, Bool, true, ◌&&◌, ◌||◌, List,
  [], ◌∷◌, ◌++◌, map, take, length, leb, ltb, All, if◌then◌else◌, ◌==◌, nat_eq, arith, inl, inr,
  Bool-cases, length-append, length-take-le,
}
use hermes_ai_devops.Common.Text.{codes}
use hermes_ai_devops.Agent.Text.{Text, text_eq}

abbrev pub out_dir_name_max_len : ℕ
out_dir_name_max_len = 80

-- Letters, digits, and the characters . - _
abbrev pub is_safe : ℕ → Bool
is_safe c =
    (leb b'a' c && leb c b'z')
    || (leb b'A' c && leb c b'Z')
    || (leb b'0' c && leb c b'9')
    || c == b'.'
    || c == b'-'
    || c == b'_'

abbrev pub made_safe : ℕ → ℕ
made_safe c = if is_safe c then c else b'_'

abbrev is_mark : ℕ → Bool
is_mark c = c == b'.' || c == b'-' || c == b'_'

-- strings.TrimRight by ".-_"
unfoldable pub trim_marks : Text → Text
trim_marks [] = []
trim_marks (c ∷ cs) = elim (trim_marks cs) [
  | [] ↦ if is_mark c then [] else c ∷ []
  | d ∷ ds ↦ c ∷ d ∷ ds
]

abbrev hex_digit : ℕ → ℕ
hex_digit d = if ltb d 10 then d + b'0' else d - 10 + b'a'

-- hex.EncodeToString
unfoldable pub hex_text : List ℕ → Text
hex_text [] = []
hex_text (b ∷ bs) = hex_digit (b / 16) ∷ hex_digit (b % 16) ∷ hex_text bs

-- A name of more than 80 characters gives way to its beginning and the first bytes of the digest.
unfoldable pub shorten : (Text → List ℕ) → Text → Text → Text
unfolding trim_marks hex_text
shorten sum task_id name =
    if ltb out_dir_name_max_len (length name)
    then trim_marks (take (out_dir_name_max_len - 9) name)
      ++ (b'-' ∷ hex_text (take 4 (sum task_id)))
    else name

unfoldable pub safe_out_dir_name : (Text → List ℕ) → Text → Text
unfolding shorten
safe_out_dir_name sum task_id =
    let name = map made_safe task_id in
    if name == [] || name == codes "." || name == codes ".."
    then b'_' ∷ []
    else shorten sum task_id name

abbrev pub IsSafe : Text → Type 0
IsSafe = All (λ c. is_safe c ≡ true)

made_safe-IsSafe : (t : Text) → IsSafe (map made_safe t)
made_safe-IsSafe [] = tt
made_safe-IsSafe (c ∷ cs) = (ground arith, made_safe-IsSafe cs)

take-IsSafe : (n : ℕ) (t : Text) → IsSafe t → IsSafe (take n t)
take-IsSafe zero t h = tt
take-IsSafe (suc n) [] h = tt
take-IsSafe (suc n) (c ∷ cs) h = (h.0, take-IsSafe n cs h.1)

cons_trimmed : ℕ → Text → Text
cons_trimmed c [] = if is_mark c then [] else c ∷ []
cons_trimmed c (d ∷ ds) = c ∷ d ∷ ds

trim_marks-cons : (c : ℕ) (cs : Text) → trim_marks (c ∷ cs) ≡ cons_trimmed c (trim_marks cs)
unfolding trim_marks cons_trimmed
trim_marks-cons c cs = ground arith

cons_trimmed-IsSafe : (c : ℕ) (t : Text) → is_safe c ≡ true → IsSafe t → IsSafe (cons_trimmed c t)
unfolding cons_trimmed
cons_trimmed-IsSafe c [] h k = elim (Bool-cases (is_mark c)) [
  | inl mark ↦ rw mark tt
  | inr other ↦ rw other (h, tt)
]
cons_trimmed-IsSafe c (d ∷ ds) h k = (h, k)

trim_marks-IsSafe : (t : Text) → IsSafe t → IsSafe (trim_marks t)
unfolding trim_marks
trim_marks-IsSafe [] h = tt
trim_marks-IsSafe (c ∷ cs) h =
    rw (trim_marks-cons c cs) (cons_trimmed-IsSafe c (trim_marks cs) h.0 (trim_marks-IsSafe cs h.1))

length-cons_trimmed-le : (c : ℕ) (t : Text) → length (cons_trimmed c t) ≤ length t + 1
unfolding cons_trimmed
length-cons_trimmed-le c t = ground arith

length-trim_marks-le : (t : Text) → length (trim_marks t) ≤ length t
unfolding trim_marks
length-trim_marks-le [] = omega arith
length-trim_marks-le (c ∷ cs) =
    rw (trim_marks-cons c cs)
      (omega (arith, length-cons_trimmed-le c (trim_marks cs), length-trim_marks-le cs))

hex_text-IsSafe : (bs : List ℕ) → All (λ b. b < 256) bs → IsSafe (hex_text bs)
unfolding hex_text
hex_text-IsSafe [] h = tt
hex_text-IsSafe (b ∷ bs) h = (ground (arith, h), (ground (arith, h), hex_text-IsSafe bs h.1))

length-hex_text : (bs : List ℕ) → length (hex_text bs) ≡ 2 * length bs
unfolding hex_text
length-hex_text [] = omega arith
length-hex_text (b ∷ bs) = omega (arith, length-hex_text bs)

All-append : (xs ys : Text) → IsSafe xs → IsSafe ys → IsSafe (xs ++ ys)
All-append [] ys h k = k
All-append (x ∷ xs) ys h k = (h.0, All-append xs ys h.1 k)

All-take : (n : ℕ) (bs : List ℕ) → All (λ b. b < 256) bs → All (λ b. b < 256) (take n bs)
All-take zero bs h = tt
All-take (suc n) [] h = tt
All-take (suc n) (b ∷ bs) h = (h.0, All-take n bs h.1)

length-take : (n : ℕ) (bs : List ℕ) → n ≤ length bs → length (take n bs) ≡ n
length-take zero bs h = refl
length-take (suc n) [] h = absurd (omega arith)
length-take (suc n) (b ∷ bs) h = omega (arith, length-take n bs)

-- sha256.Sum256 gives bytes, and four at least.
pub record IsDigest (sum : Text → List ℕ) : Type 0 where
  pub bytes : (t : Text) → All (λ b. b < 256) (sum t)
  pub four : (t : Text) → 4 ≤ length (sum t)

abbrev pub IsDirName : Text → Type 0
IsDirName n =
    IsSafe n
    × (0 < length n)
    × (length n ≤ out_dir_name_max_len)
    × (n ≢ codes ".")
    × (n ≢ codes "..")

not_dots : (n : Text) → 2 < length n → (n ≢ codes ".") × (n ≢ codes "..")
not_dots n h = (λ e. absurd (omega (arith, ap length e)), λ e. absurd (omega (arith, ap length e)))

shorten-IsDirName :
    (sum : Text → List ℕ) (t name : Text)
    → IsDigest sum
    → IsSafe name
    → name ≢ []
    → name ≢ codes "."
    → name ≢ codes ".."
    → IsDirName (shorten sum t name)
unfolding shorten
shorten-IsDirName sum t name digest safe some_char one two =
    elim (Bool-cases (ltb out_dir_name_max_len (length name))) [
      | inr short ↦ rw short (safe, pos name some_char, ground (arith, short), one, two)
      | inl long ↦
          let begun = trim_marks (take (out_dir_name_max_len - 9) name) in
          let bytes = take 4 (sum t) in
          let kept : IsSafe begun = trim_marks-IsSafe (take 71 name) (take-IsSafe 71 name safe) in
          let hashed : IsSafe (hex_text bytes) =
            hex_text-IsSafe bytes (All-take 4 (sum t) (digest.bytes t)) in
          let size : length (begun ++ (b'-' ∷ hex_text bytes)) ≡ length begun + 9 = omega (
            arith,
            length-append begun (b'-' ∷ hex_text bytes),
            length-hex_text bytes,
            length-take 4 (sum t) (digest.four t),
          ) in
          let small : length begun ≤ 71 =
            omega (arith, length-trim_marks-le (take 71 name), length-take-le 71 name) in
          let dots = not_dots (begun ++ (b'-' ∷ hex_text bytes)) (omega (arith, size)) in
          rw long (
            All-append begun (b'-' ∷ hex_text bytes) kept (refl, hashed),
            omega (arith, size),
            omega (arith, size, small),
            dots.0,
            dots.1,
          )
    ]
  where
    pos : (n : Text) → n ≢ [] → 0 < length n
    pos [] h = absurd (h refl)
    pos (c ∷ cs) h = omega arith

eq→same_text : (s t : Text) → s ≡ t → (s == t) ≡ true
eq→same_text [] [] h = refl
eq→same_text [] (y ∷ ys) h = cc
eq→same_text (x ∷ xs) [] h = cc
eq→same_text (x ∷ xs) (y ∷ ys) h = ground (arith, h, eq→same_text xs ys)

-- Whatever the task id, the name of the directory of its run has from 1 to 80 characters, each of them
-- a letter, a digit, a dot, a dash or an underscore, and is neither "." nor "..".
pub safe_out_dir_name-IsDirName :
    (sum : Text → List ℕ) (task_id : Text)
    → IsDigest sum
    → IsDirName (safe_out_dir_name sum task_id)
unfolding safe_out_dir_name
safe_out_dir_name-IsDirName sum task_id digest =
    let name = map made_safe task_id in
    elim (Bool-cases (name == [] || name == codes "." || name == codes "..")) [
      | inl odd ↦
          rw odd
            ((refl, tt), omega arith, omega arith, λ e. ground (arith, e), λ e. ground (arith, e))
      | inr fine ↦ rw fine (
          shorten-IsDirName sum task_id name digest (made_safe-IsSafe task_id)
            (λ e. ground (arith, fine, eq→same_text name [] e))
            (λ e. ground (arith, fine, eq→same_text name (codes ".") e))
            (λ e. ground (arith, fine, eq→same_text name (codes "..") e)))
    ]
