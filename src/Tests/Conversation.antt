-- ===== src/Tests/Conversation.antt =====
-- Claims and attachment markers at concrete texts.
use opencrow.Prelude.{◌≡◌, if◌then◌else◌}
use opencrow.Prelude.Text.{codes, is_empty}
use opencrow.Conversation.{attachment_text, sanitize_line}
use opencrow.Conversation.Markers.{line_breaks, line_breaks-attachment_text}

line_breaks-attachment_text_example :
    line_breaks (attachment_text (codes "two\nlines") (codes "/tmp/a\r\nb"))
    ≡ (if is_empty (sanitize_line (codes "/tmp/a\r\nb")) then 0 else 1)
line_breaks-attachment_text_example =
    line_breaks-attachment_text (codes "two\nlines") (codes "/tmp/a\r\nb")
