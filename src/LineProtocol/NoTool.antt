-- ===== src/LineProtocol/NoTool.antt =====
-- llm/line_protocol.py: `normalize_no_tool`, on text.
use codex_py.Base.{
  Option, String, Bool, false, if◌then◌else◌, is_empty, is_space, nat_eq, none, some, string_eq,
  strip, true, ◌&&◌, ◌==◌, ◌||◌,
}
use codex_py.LineProtocol.Lines.{match_word}
use Prim.Native.Char.{code}

-- s.endswith(suffix)
unfoldable pub ends_with : String → String → Bool
ends_with suffix String.[] = is_empty suffix
ends_with suffix (String.◌∷◌ c s) =
    let later = ends_with suffix s in if String.◌∷◌ c s == suffix then true else later

-- \s*\n```$ on text without white space at its end
unfoldable pub closes_fence : String → Bool
unfolding is_space
closes_fence String.[] = false
closes_fence (String.◌∷◌ c s) =
    let later = closes_fence s in
    if code c == b'\n' && s == "```" then true else is_space (code c) && later

unfoldable pub fence_after : Option (String × String) → Bool
unfolding closes_fence
fence_after none = false
fence_after (some (word, rest)) = closes_fence rest

-- ```no_tool\s*\n```$ here, with IGNORECASE
unfoldable pub is_fence : String → Bool
unfolding match_word fence_after
is_fence s = fence_after (match_word "```NO_TOOL" s)

-- The same after a newline.
unfoldable pub has_fence : String → Bool
unfolding is_fence
has_fence String.[] = false
has_fence (String.◌∷◌ c s) =
    let later = has_fence s in if code c == b'\n' && is_fence s then true else later

abbrev pub empty_block : String
empty_block = "BEGIN NO_TOOL\nEND NO_TOOL"

unfoldable pub normalize_no_tool : String → String
unfolding strip ends_with is_fence has_fence
normalize_no_tool document =
    let stripped = strip document in
    if stripped == "NO_TOOL"
    then empty_block
    else if ends_with "\n_NO_TOOL_" stripped
    then empty_block
    else if is_fence stripped || has_fence stripped
    then empty_block
    else document
