-- ===== src/Shlex.antt =====
-- `shlex.shlex(text, posix=True, punctuation_chars="=,")` of Python, which cincan/file_tool.py
-- splits an argument by.
use cincan_command.Prelude.{
  ℕ, Text, codes, contains, leb, Bool, true, false, not, ◌&&◌, ◌||◌, Option, none, some, List, [],
  ◌∷◌, ◌++◌, ◌==◌, nat_eq, list_eq, if◌then◌else◌, ◌≡◌, ◌≢◌, refl, All, arith, append_assoc,
  append-nil, length-append,
}

pub data Mode : Type 0 where
  -- between tokens, in a word, and in a run of punctuation
  between in_word in_punctuation : Mode
  -- in quotes of this kind
  in_quotes : ℕ → Mode
  -- behind a backslash, in quotes of this kind or not
  escaped : Option ℕ → Mode
  in_comment : Mode

pub record Lexer : Type 0 where
  pub mode : Mode
  pub token : Text
  pub quoted : Bool
  -- the tokens that have been given out
  pub tokens : List Text

abbrev pub start : Lexer
start = record { mode = between; token = []; quoted = false; tokens = [] }

is_whitespace : ℕ → Bool
is_whitespace c = c == b' ' || c == 9 || c == 13 || c == 10

is_quote : ℕ → Bool
is_quote c = c == 39 || c == 34

is_punctuation : ℕ → Bool
is_punctuation c = c == b'=' || c == b','

-- `wordchars`: letters, digits and "_", the letters of Latin-1, and "~-./*?"
unfoldable pub is_word : ℕ → Bool
is_word c =
    (leb b'a' c && leb c b'z')
    || (leb b'A' c && leb c b'Z')
    || (leb b'0' c && leb c b'9')
    || (leb 0xC0 c && leb c 0xFF && not (c == 0xD7) && not (c == 0xF7))
    || contains (codes "_~-./*?") c

-- The token is given out, unless it is empty and has not been quoted.
emit : Mode → Lexer → Lexer
emit mode l =
    if not (l.token == []) || l.quoted
    then record { mode = mode; token = []; quoted = false; tokens = l.tokens ++ l.token ∷ [] }
    else record l { mode = mode }

add_char : Mode → ℕ → Lexer → Lexer
add_char mode c l = record l { mode = mode; token = l.token ++ c ∷ [] }

begin : ℕ → Lexer → Lexer
begin c l =
    if is_whitespace c
    then l
    else if c == b'#'
    then record l { mode = in_comment }
    else if c == 92
    then record l { mode = escaped none }
    else if is_word c
    then record l { mode = in_word; token = c ∷ [] }
    else if is_punctuation c
    then record l { mode = in_punctuation; token = c ∷ [] }
    else if is_quote c
    then record l { mode = in_quotes c }
    else record l { tokens = l.tokens ++ (c ∷ []) ∷ [] }

word_char : ℕ → Lexer → Lexer
word_char c l =
    if is_whitespace c
    then emit between l
    else if c == b'#'
    then emit in_comment l
    else if is_quote c
    then record l { mode = in_quotes c }
    else if c == 92
    then record l { mode = escaped none }
    else if is_word c
    then add_char in_word c l
    else begin c (emit between l)

punctuation_char : ℕ → Lexer → Lexer
punctuation_char c l =
    if is_whitespace c
    then emit between l
    else if c == b'#'
    then emit in_comment l
    else if is_punctuation c
    then add_char in_punctuation c l
    else begin c (emit between l)

quoted_char : ℕ → ℕ → Lexer → Lexer
quoted_char q c l =
    if c == q
    then record l { mode = in_word; quoted = true }
    else if c == 92 && q == 34
    then record l { mode = escaped (some q); quoted = true }
    else record l { token = l.token ++ c ∷ []; quoted = true }

escaped_char : Option ℕ → ℕ → Lexer → Lexer
escaped_char none c l = add_char in_word c l
escaped_char (some q) c l =
    if not (c == 92) && not (c == q)
    then record l { mode = in_quotes q; token = l.token ++ 92 ∷ c ∷ [] }
    else add_char (in_quotes q) c l

next : Mode → ℕ → Lexer → Lexer
next between c l = begin c l
next in_word c l = word_char c l
next in_punctuation c l = punctuation_char c l
next (in_quotes q) c l = quoted_char q c l
next (escaped q) c l = escaped_char q c l
next in_comment c l = if c == 10 then record l { mode = between } else l

-- At the end of the text, open quotes and a last backslash raise.
finish : Mode → Lexer → Option (List Text)
finish (in_quotes q) l = none
finish (escaped q) l = none
finish _ l = some (emit between l).tokens

unfoldable pub lex : Lexer → Text → Option (List Text)
unfolding emit add_char begin word_char punctuation_char quoted_char escaped_char next finish
    is_whitespace is_quote is_punctuation
lex l [] = finish l.mode l
lex l (c ∷ v) = lex (next l.mode c l) v

-- `list(shlex.shlex(text, …))`
unfoldable pub split_command : Text → Option (List Text)
unfolding lex
split_command v = lex start v

words_test :
    split_command (codes "--in=a.txt,'b c' \"d\\\"e\" #x")
    ≡ some (codes "--in" ∷ codes "=" ∷ codes "a.txt" ∷ codes "," ∷ codes "b c" ∷ codes "d\"e" ∷ [])
unfolding split_command is_word nat_eq list_eq
words_test = refl

quote_test : split_command (codes "it's") ≡ none
unfolding split_command is_word nat_eq list_eq
quote_test = refl

word_char-is_word : (c : ℕ) (l : Lexer) → is_word c ≡ true → word_char c l ≡ add_char in_word c l
unfolding word_char is_word is_whitespace is_quote nat_eq
word_char-is_word c l h = ground arith

begin-is_word :
    (c : ℕ) (l : Lexer) → is_word c ≡ true → begin c l ≡ record l { mode = in_word; token = c ∷ [] }
unfolding begin is_word is_whitespace
begin-is_word c l h = ground arith

lex-word :
    (token v : Text) (tokens : List Text)
    → token ≢ []
    → All (λ d. is_word d ≡ true) v
    → lex (record { mode = in_word; token = token; quoted = false; tokens = tokens }) v
      ≡ some (tokens ++ (token ++ v) ∷ [])
unfolding lex
lex-word token [] tokens n h = rw append-nil (unfold finish emit in ground arith)
lex-word token (d ∷ v) tokens n h =
    let l : Lexer = record { mode = in_word; token = token; quoted = false; tokens = tokens } in
    rw (word_char-is_word d l h.0) (
      rw
        (
          lex-word (token ++ d ∷ []) v tokens (λ e. ground (arith, length-append token (d ∷ [])))
              h.1,
          append_assoc token (d ∷ []) v,
        )
        refl)

-- A text of letters, digits and the like is one token.
pub split_command-is_word :
    (c : ℕ) (v : Text)
    → All (λ d. is_word d ≡ true) (c ∷ v)
    → split_command (c ∷ v) ≡ some ((c ∷ v) ∷ [])
unfolding split_command
split_command-is_word c v h = rw (begin-is_word c start h.0) (lex-word (c ∷ []) v [] (λ e. cc) h.1)
