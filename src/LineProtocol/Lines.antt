-- ===== src/LineProtocol/Lines.antt =====
-- llm/line_protocol.py: the lines of a document, and the three regular expressions.
use codex_py.Base.{
  Bool, List, Option, String, [], false, if◌then◌else◌, is_empty, leb, nat_eq, none, not, some,
  string_eq, true, ℕ, ◌&&◌, ◌==◌, ◌||◌, ◌∷◌,
}
use mathlib.Core.Option
use Prim.Native.Char.{Char, char, code}

-- document.replace("\r\n", "\n")
abbrev starts_newline : String → Bool
starts_newline String.[] = false
starts_newline (String.◌∷◌ c s) = code c == b'\n'

unfoldable pub replace_crlf : String → String
replace_crlf String.[] = String.[]
replace_crlf (String.◌∷◌ c s) =
    let rest = replace_crlf s in
    if code c == b'\r' && starts_newline s then rest else String.◌∷◌ c rest

-- document.replace("\r", "\n")
unfoldable pub replace_cr : String → String
replace_cr String.[] = String.[]
replace_cr (String.◌∷◌ c s) =
    let rest = replace_cr s in
    if code c == b'\r' then String.◌∷◌ (char b'\n' tt) rest else String.◌∷◌ c rest

-- A character at the front of the first line.
abbrev pub onto_first : Char → List String → List String
onto_first c [] = String.◌∷◌ c String.[] ∷ []
onto_first c (l ∷ ls) = String.◌∷◌ c l ∷ ls

-- text.split("\n")
unfoldable pub split_lines : String → List String
split_lines String.[] = String.[] ∷ []
split_lines (String.◌∷◌ c s) =
    let rest = split_lines s in if code c == b'\n' then String.[] ∷ rest else onto_first c rest

-- if lines and lines[-1] == "": lines.pop()
unfoldable pub drop_last_empty : List String → List String
drop_last_empty [] = []
drop_last_empty (l ∷ []) = if is_empty l then [] else l ∷ []
drop_last_empty (l ∷ m ∷ ls) = l ∷ drop_last_empty (m ∷ ls)

unfoldable pub lines_of : String → List String
unfolding replace_crlf replace_cr split_lines drop_last_empty
lines_of document = drop_last_empty (split_lines (replace_cr (replace_crlf document)))

-- [A-Z] with IGNORECASE: the ASCII letters, and U+0130, U+0131, U+017F and U+212A.
unfoldable pub is_letter : ℕ → Bool
is_letter n =
    (leb b'A' n && leb n b'Z')
    || (leb b'a' n && leb n b'z')
    || n == 304
    || n == 305
    || n == 383
    || n == 8490

-- [A-Z0-9_] with IGNORECASE
unfoldable pub is_name_char : ℕ → Bool
unfolding is_letter
is_name_char n = is_letter n || (leb b'0' n && leb n b'9') || n == b'_'

-- The character of `to` at the place where `from` has `c`.
unfoldable pub translate : String → String → Char → Char
translate String.[] to c = c
translate (String.◌∷◌ x from) String.[] c = c
translate (String.◌∷◌ x from) (String.◌∷◌ y to) c =
    let rest = translate from to c in if code x == code c then y else rest

-- `upper()` of a character that one of the regular expressions matches.
unfoldable pub upper_char : Char → Char
unfolding translate
upper_char = translate "abcdefghijklmnopqrstuvwxyzıſ" "ABCDEFGHIJKLMNOPQRSTUVWXYZIS"

unfoldable pub upper : String → String
unfolding upper_char
upper String.[] = String.[]
upper (String.◌∷◌ c s) = String.◌∷◌ (upper_char c) (upper s)

-- A letter of BEGIN or END with IGNORECASE: `I` also matches U+0130, which `upper()` keeps.
unfoldable pub same_letter : Char → Char → Bool
unfolding upper_char
same_letter p c = code (upper_char c) == code p || (code p == b'I' && code c == 304)

-- The text that a word matches, and the rest of the line.
unfoldable pub match_word : String → String → Option (String × String)
unfolding same_letter
match_word String.[] s = some (String.[], s)
match_word (String.◌∷◌ p ps) String.[] = none
match_word (String.◌∷◌ p ps) (String.◌∷◌ c s) =
    let rest = Option.map (λ r. (String.◌∷◌ c (r.0), r.1)) (match_word ps s) in
    if same_letter p c then rest else none

abbrev or_else : Option (String × String) → Option (String × String) → Option (String × String)
or_else none o = o
or_else (some p) o = some p

-- ([A-Z][A-Z0-9_]*)$
unfoldable pub is_name_rest : String → Bool
unfolding is_name_char
is_name_rest String.[] = true
is_name_rest (String.◌∷◌ c s) = is_name_char (code c) && is_name_rest s

unfoldable pub is_name : String → Bool
unfolding is_name_rest is_letter
is_name String.[] = false
is_name (String.◌∷◌ c s) = is_letter (code c) && is_name_rest s

-- _NAME.fullmatch
unfoldable pub is_strict_rest : String → Bool
is_strict_rest String.[] = true
is_strict_rest (String.◌∷◌ c s) =
    let n = code c in
    ((leb b'A' n && leb n b'Z') || (leb b'0' n && leb n b'9') || n == b'_') && is_strict_rest s

unfoldable pub is_strict_name : String → Bool
unfolding is_strict_rest
is_strict_name String.[] = false
is_strict_name (String.◌∷◌ c s) = (leb b'A' (code c) && leb (code c) b'Z') && is_strict_rest s

-- [ _] and the name, after BEGIN or END
unfoldable pub named_boundary : String → String → Option (String × String)
unfolding is_name upper
named_boundary kind String.[] = none
named_boundary kind (String.◌∷◌ c s) =
    if (code c == b' ' || code c == b'_') && is_name s then some (upper kind, upper s) else none

abbrev after_word : Option (String × String) → Option (String × String)
unfolding named_boundary
after_word none = none
after_word (some (kind, s)) = named_boundary kind s

-- _BOUNDARY.match(line), with both groups in upper case
unfoldable pub boundary : String → Option (String × String)
unfolding named_boundary match_word
boundary line = after_word (or_else (match_word "BEGIN" line) (match_word "END" line))

-- The dotted path of _SCALAR; the flag says that a name must start.
unfoldable pub is_path : Bool → String → Bool
unfolding is_name_char is_letter
is_path start String.[] = not start
is_path true (String.◌∷◌ c s) = is_letter (code c) && is_path false s
is_path false (String.◌∷◌ c s) =
    let dotted = is_path true s in
    let plain = is_path false s in if code c == b'.' then dotted else is_name_char (code c) && plain

-- The text before the first `=`, and the text after it.
unfoldable pub split_equals : String → Option (String × String)
split_equals String.[] = none
split_equals (String.◌∷◌ c s) =
    let rest = Option.map (λ r. (String.◌∷◌ c (r.0), r.1)) (split_equals s) in
    if code c == b'=' then some (String.[], s) else rest

abbrev checked_scalar : Option (String × String) → Option (String × String)
checked_scalar none = none
checked_scalar (some (path, literal)) =
    if is_path true path && not (is_empty literal) then some (upper path, literal) else none

-- _SCALAR.match(line), with the path in upper case
unfoldable pub scalar : String → Option (String × String)
unfolding split_equals is_path upper
scalar line = checked_scalar (split_equals line)

-- line.startswith("#")
abbrev pub is_comment : String → Bool
is_comment String.[] = false
is_comment (String.◌∷◌ c s) = code c == b'#'
