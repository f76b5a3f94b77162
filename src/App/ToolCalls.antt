-- ===== src/App/ToolCalls.antt =====
-- `formatToolCall` of app.go.
use opencrow.Prelude.{◌∷◌, ◌++◌, Option, none, some, if◌then◌else◌}
use opencrow.Prelude.Text.{Text, codes, text_eq}
use opencrow.Pi.Process.{ToolCallEvent}

pub data MarkdownFlavor : Type 0 where
  markdown_none markdown_basic markdown_full : MarkdownFlavor

unfoldable pub format_bash : Option Text → MarkdownFlavor → Text
format_bash none flavor = codes "🔧 bash"
format_bash (some cmd) markdown_full = codes "🔧\n```sh\n" ++ (cmd ++ codes "\n```")
format_bash (some cmd) markdown_basic = codes "🔧\n```\n" ++ (cmd ++ codes "\n```")
format_bash (some cmd) markdown_none = codes "🔧 " ++ cmd

unfoldable pub format_bash_call : ToolCallEvent → MarkdownFlavor → Text
unfolding format_bash
format_bash_call evt flavor = format_bash (evt.args (codes "command")) flavor

unfoldable pub format_path : Option Text → MarkdownFlavor → Text → Text → Text
format_path none flavor prefix fallback = prefix ++ (codes " " ++ fallback)
format_path (some p) markdown_none prefix fallback = prefix ++ (codes " " ++ p)
format_path (some p) _ prefix fallback = prefix ++ (codes " `" ++ (p ++ codes "`"))

unfoldable pub format_path_call : ToolCallEvent → MarkdownFlavor → Text → Text → Text
unfolding format_path
format_path_call evt flavor prefix fallback =
    format_path (evt.args (codes "path")) flavor prefix fallback

unfoldable pub format_tool_call : ToolCallEvent → MarkdownFlavor → Text
unfolding format_bash_call format_path_call
format_tool_call evt flavor =
    if text_eq evt.tool_name (codes "bash")
    then format_bash_call evt flavor
    else if text_eq evt.tool_name (codes "read")
    then format_path_call evt flavor (codes "📄 reading") (codes "file")
    else if text_eq evt.tool_name (codes "edit")
    then format_path_call evt flavor (codes "✏" ++ 0xfe0f ∷ codes " editing") (codes "file")
    else if text_eq evt.tool_name (codes "write")
    then format_path_call evt flavor (codes "📝 writing") (codes "file")
    else codes "🔧 " ++ evt.tool_name
