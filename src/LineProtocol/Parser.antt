-- ===== src/LineProtocol/Parser.antt =====
-- llm/line_protocol.py: `parse_line_protocol`. `loads` is `json.loads(literal, parse_constant=...)`,
-- a JSON value or the exception that it raises; only a ValueError becomes LineProtocolError.
use codex_py.Base.{
  err, Bool, List, Option, Result, String, [], false, if◌then◌else◌, is_empty, is_some, nat_eq,
  none, not, some, string_eq, strip, true, ◌&&◌, ◌++◌, ◌<>◌, ◌==◌, ◌||◌, ◌∷◌, ◌>>=◌, ◌>>◌, ok,
}
use codex_py.TextStream.{is_value_error}
use codex_py.LineProtocol.{
  no_blocks, blocks, of_list, type_of, block, reject, require, ParsedBlock, add_value,
}
use codex_py.LineProtocol.Lines.{boundary, is_comment, lines_of, scalar, is_strict_name}
use codex_py.LineProtocol.Codecs.{validate_registered_fields, codec_of}
use codex_py.Base.Json.{Json}

-- The open blocks, the innermost first, and the closed top-level block. A block joins the children
-- of its parent when it is closed: until then nothing reads them.
pub record ParserState : Type 0 where
  pub stack : List ParsedBlock
  pub root : Option ParsedBlock

abbrev pub initial : ParserState
initial = record { stack = []; root = none }

abbrev pub is_nil {ℓ} : {A : Type ℓ} → List A → Bool
is_nil [] = true
is_nil (x ∷ xs) = false

abbrev pub add_child : ParsedBlock → ParsedBlock → ParsedBlock
add_child (block t fs cs) b = block t fs (of_list (blocks cs ++ (b ∷ [])))

unfoldable pub add_field : String → Json → ParsedBlock → ParsedBlock
unfolding add_value
add_field path v (block t fs cs) = block t (add_value path v fs) cs

-- kind == "BEGIN"
unfoldable pub begin_block : String → ParserState → Result ParserState
unfolding is_strict_name
begin_block type_name s = do
  require (is_strict_name type_name) "invalid block type"
  require (not (is_nil s.stack && is_some s.root)) "multiple top-level blocks"
  ok (record s { stack = block type_name [] no_blocks ∷ s.stack })

unfoldable pub end_block : String → List ParsedBlock → Option ParsedBlock → Result ParserState
end_block type_name [] root = reject "mismatched block boundary"
end_block type_name (b ∷ []) root =
    if type_of b == type_name
    then ok (record { stack = []; root = some b })
    else reject "mismatched block boundary"
end_block type_name (b ∷ parent ∷ stack) root =
    if type_of b == type_name
    then ok (record { stack = add_child parent b ∷ stack; root = root })
    else reject "mismatched block boundary"

-- except (json.JSONDecodeError, ValueError)
abbrev pub or_invalid : String → Result Json → Result Json
or_invalid path (ok v) = ok v
or_invalid path (err e) =
    if is_value_error e then reject ("invalid JSON literal for " <> path) else err e

module _ (loads : String → Result Json) where
  unfoldable pub read_scalar :
      Option (String × String) → List ParsedBlock → Option ParsedBlock → Result ParserState
  unfolding strip add_field
  read_scalar (some (path, literal)) (b ∷ stack) root = do
    require (literal == strip literal) ("whitespace around JSON literal for " <> path)
    v ← or_invalid path (loads literal)
    ok (record { stack = add_field path v b ∷ stack; root = root })
  read_scalar _ stack root = reject "invalid line or text outside a block"

  unfoldable pub read_boundary :
      Option (String × String) → String → ParserState → Result ParserState
  unfolding begin_block end_block read_scalar scalar
  read_boundary (some (kind, type_name)) line s =
      if kind == "BEGIN" then begin_block type_name s else end_block type_name s.stack s.root
  read_boundary none line s = read_scalar (scalar line) s.stack s.root

  -- The body of the loop over the lines.
  unfoldable pub read_line : ParserState → String → Result ParserState
  unfolding read_boundary boundary
  read_line s line = do
    require (not (is_empty line || is_comment line)) "blank lines and comments are not permitted"
    read_boundary (boundary line) line s

  unfoldable pub read_lines : ParserState → List String → Result ParserState
  unfolding read_line
  read_lines s [] = ok s
  read_lines s (line ∷ rest) = do t ← read_line s line; read_lines t rest

  -- The checks after the loop.
  unfoldable pub finish : List ParsedBlock → Option ParsedBlock → Result ParsedBlock
  unfolding validate_registered_fields
  finish [] (some root) = do
    require (is_some (codec_of (type_of root))) ("unregistered block type " <> type_of root)
    require (not (type_of root == "STEP")) "STEP is only valid inside PLAN"
    validate_registered_fields root
    ok root
  finish _ _ = reject "incomplete protocol block"

  unfoldable pub parse_line_protocol : String → Result ParsedBlock
  unfolding read_lines finish lines_of
  parse_line_protocol document = do
    let lines = lines_of document
    require (not (is_nil lines)) "protocol response is empty"
    s ← read_lines initial lines
    finish s.stack s.root
