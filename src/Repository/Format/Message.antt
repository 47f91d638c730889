-- ===== src/Repository/Format/Message.antt =====
-- repository/src/format.rs: the message of a git commit as a title and a body.
use Prim.Native.Char.{Char, code}
use Prim.Native.String.{String, ◌++◌ as ◌<>◌}
use text.Mathlib.TextLemmas.{cons-append, nil-append}
use simperby.Base.{
  ℕ, zero, suc, ◌/◌, ◌≡◌, refl, ◌∙◌, ap, false, ◌&&◌, Option, none, some, ◌==◌, if◌then◌else◌,
  arith,
}
use simperby.Base.Int.{ℤ, pos, negsuc}
use simperby.Core.Types.{Diff, Timestamp}
use simperby.Core.Result.{Result, ok, panic}
use simperby.Repository.Types.{SemanticCommit, RawCommit, FormatError}

abbrev put_before : Char → Option (String × String) → Option (String × String)
put_before c none = none
put_before c (some (title, body)) = some (String.◌∷◌ c title, body)

-- `message.split_once("\n\n")`.
unfoldable pub split_blank_line : String → Option (String × String)
split_blank_line String.[] = none
split_blank_line (String.◌∷◌ c String.[]) = none
split_blank_line (String.◌∷◌ c (String.◌∷◌ d s)) =
    if code c == 10 && code d == 10
    then some ("", s)
    else put_before c (split_blank_line (String.◌∷◌ d s))

-- `x / y` on `i64`, towards zero.
unfoldable pub neg : ℕ → ℤ
neg zero = pos 0
neg (suc n) = negsuc n

unfoldable pub div_i64 : ℤ → ℕ → ℤ
unfolding neg
div_i64 (pos n) d = pos (n / d)
div_i64 (negsuc n) d = neg (suc n / d)

unfoldable pub title_and_body : String → String × String
unfolding split_blank_line
title_and_body message = elim (split_blank_line message) [ none ↦ ("", "") | some parts ↦ parts ]

-- A commit with a patch is `unimplemented!()`.
unfoldable pub raw_commit_to_semantic_commit : RawCommit → Result FormatError SemanticCommit
unfolding title_and_body div_i64
raw_commit_to_semantic_commit raw = elim raw.patch [
  | some _ ↦ panic
  | none ↦ ok (record {
    title = (title_and_body raw.message).0;
    body = (title_and_body raw.message).1;
    diff = Diff.empty;
    author = raw.author;
    timestamp = div_i64 raw.timestamp 1000;
  })
]

abbrev pub IsOneLine : String → Type 0
IsOneLine String.[] = Unit
IsOneLine (String.◌∷◌ c s) = ((code c == 10) ≡ false) × IsOneLine s

abbrev newline : Char
newline = "\n"

blank_line : (body : String) → "\n\n" <> body ≡ String.◌∷◌ newline (String.◌∷◌ newline body)
blank_line body =
    cons-append newline "\n" body
    ∙ ap (String.◌∷◌ newline)
        (cons-append newline "" body ∙ ap (String.◌∷◌ newline) (nil-append body))

split_step :
    (c : Char) (rest title body : String)
    → (code c == 10) ≡ false
    → split_blank_line rest ≡ some (title, body)
    → split_blank_line (String.◌∷◌ c rest) ≡ some (String.◌∷◌ c title, body)
unfolding split_blank_line
split_step c String.[] title body plain found = absurd (ground arith)
split_step c (String.◌∷◌ d s) title body plain found = rw (split_blank_line, plain, found)

split_here :
    (body : String)
    → split_blank_line (String.◌∷◌ newline (String.◌∷◌ newline body)) ≡ some ("", body)
unfolding split_blank_line
split_here body = refl

split_blank_line-append :
    (title body : String)
    → IsOneLine title
    → split_blank_line (title <> ("\n\n" <> body)) ≡ some (title, body)
split_blank_line-append String.[] body h = rw (nil-append, blank_line) (split_here body)
split_blank_line-append (String.◌∷◌ c s) body h =
    rw cons-append (split_step c _ s body h.0 (split_blank_line-append s body h.1))

-- A message that is a title of one line, an empty line and a body is taken apart into the two, with
-- the author kept and the seconds divided by 1000.
pub raw_commit_to_semantic_commit_lem :
    (title body author email : String) (seconds : Timestamp)
    → IsOneLine title
    → raw_commit_to_semantic_commit (record {
      message = title <> ("\n\n" <> body);
      patch = none;
      author = author;
      email = email;
      timestamp = seconds;
    })
      ≡ ok (record {
        title = title;
        body = body;
        diff = Diff.empty;
        author = author;
        timestamp = div_i64 seconds 1000;
      })
unfolding raw_commit_to_semantic_commit
raw_commit_to_semantic_commit_lem title body author email seconds h =
    ground (arith, split_blank_line-append title body h)
