-- ===== src/Trigger.antt =====
-- trigger_pipe.go: the lines of the trigger pipe, and the prompt that wraps one.
use opencrow.Prelude.{◌++◌}
use opencrow.Prelude.Text.{Text, codes}

unfoldable pub build_trigger_prompt : Text → Text → Text
build_trigger_prompt base_prompt content =
    base_prompt
    ++ (codes "\n\n--- External trigger ---\n" ++ (content ++ codes "\n--- end trigger ---"))
