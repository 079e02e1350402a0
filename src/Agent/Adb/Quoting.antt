-- ===== src/Agent/Adb/Quoting.antt =====
-- What a shell on the device reads of a quoted text. The reader below is the specification: a word of
-- the POSIX shell, in which an unquoted character that could mean more than itself is an error.
use hermes_ai_devops.Common.{
  ℕ, zero, suc, ◌≡◌, refl, Bool, ◌&&◌, ◌||◌, Option, none, some, List, [], ◌∷◌, ◌++◌, leb, length,
  arith, inl, inr, Bool-cases, if◌then◌else◌, ◌==◌, nat_eq, ◌∙◌, ap, sym,
}
use mathlib.Core.List.{append_assoc}
use hermes_ai_devops.Agent.Text.{Text}
use hermes_ai_devops.Agent.Adb.{escape_quotes, quote, show_args}

-- Letters, digits and the punctuation that the shell leaves alone.
abbrev is_plain : ℕ → Bool
is_plain c =
    (leb 48 c && leb c 57)
    || (leb 65 c && leb c 90)
    || (leb 97 c && leb c 122)
    || c == 45
    || c == 46
    || c == 47
    || c == 95

abbrev grow : ℕ → Option (Text × Text) → Option (Text × Text)
grow c none = none
grow c (some (w, rest)) = some (c ∷ w, rest)

pub data Mode : Type 0 where
  bare quoted escaped : Mode

-- One word and what follows it.
unfoldable pub read_word : Mode → Text → Option (Text × Text)
read_word quoted [] = none
read_word quoted (c ∷ cs) =
    let closed = read_word bare cs in
    let more = read_word quoted cs in if c == 39 then closed else grow c more
read_word escaped [] = none
read_word escaped (c ∷ cs) = grow c (read_word bare cs)
read_word bare [] = some ([], [])
read_word bare (c ∷ cs) =
    let opened = read_word quoted cs in
    let literal = read_word escaped cs in
    let more = read_word bare cs in
    if c == 39
    then opened
    else if c == 92
    then literal
    else if c == 32
    then some ([], c ∷ cs)
    else if is_plain c
    then grow c more
    else none

-- The words of a line, each behind a space; there is fuel for one more than they are.
unfoldable pub read_words : ℕ → Text → Option (List Text)
read_words zero t = none
read_words (suc fuel) [] = some []
read_words (suc fuel) (c ∷ cs) =
    if c == 32
    then elim (read_word bare cs) [
      | none ↦ none
      | some (w, rest) ↦ elim (read_words fuel rest) [ none ↦ none | some ws ↦ some (w ∷ ws) ]
    ]
    else none

abbrev grow_all : Text → Option (Text × Text) → Option (Text × Text)
grow_all [] r = r
grow_all (c ∷ cs) r = grow c (grow_all cs r)

-- In an open quote, an escaped text and the closing quote are read as the text, and the word goes on.
read_word-escape :
    (s rest : Text)
    → read_word quoted (escape_quotes s ++ 39 ∷ rest) ≡ grow_all s (read_word bare rest)
unfolding read_word escape_quotes
read_word-escape [] rest = refl
read_word-escape (c ∷ cs) rest = elim (Bool-cases (c == 39)) [
  | inl hit ↦
      let same : c ≡ 39 = ground arith in
      rw (hit, escape_quotes)
        (ap (grow 39) (read_word-escape cs rest)
          ∙ ap (λ k. grow k (grow_all cs (read_word bare rest))) (sym same))
  | inr miss ↦
      rw (miss, escape_quotes) (rw (miss, read_word) (ap (grow c) (read_word-escape cs rest)))
]

grow_all-some : (s w rest : Text) → grow_all s (some (w, rest)) ≡ some (s ++ w, rest)
grow_all-some [] w rest = refl
grow_all-some (c ∷ cs) w rest = ap (grow c) (grow_all-some cs w rest)

-- A quoted text adds itself to the word that follows it.
read_word-quote_then :
    (s rest : Text) → read_word bare (quote s ++ rest) ≡ grow_all s (read_word bare rest)
unfolding quote read_word
read_word-quote_then s rest =
    ap (read_word quoted) (append_assoc (escape_quotes s) (39 ∷ []) rest) ∙ read_word-escape s rest

append-nil_codes : (s : Text) → s ++ [] ≡ s
append-nil_codes [] = refl
append-nil_codes (c ∷ cs) = ap (◌∷◌ c) (append-nil_codes cs)

show_args_ends : (args : List Text) → read_word bare (show_args args) ≡ some ([], show_args args)
unfolding read_word
show_args_ends [] = refl
show_args_ends (a ∷ rest) = refl

-- The arguments of a command line, each quoted behind a space, are read by the shell as exactly these
-- words: no argument, whatever its characters, splits or ends its word.
pub read_words-show_args :
    (args : List Text) → read_words (suc (length args)) (show_args args) ≡ some args
unfolding read_words
read_words-show_args [] = refl
read_words-show_args (a ∷ rest) =
    let word : read_word bare (quote a ++ show_args rest) ≡ some (a, show_args rest) =
      read_word-quote_then a (show_args rest)
      ∙ ap (grow_all a) (show_args_ends rest)
      ∙ grow_all-some a [] (show_args rest)
      ∙ ap (λ w. some (w, show_args rest)) (append-nil_codes a) in
    rw word (rw (read_words-show_args rest))
