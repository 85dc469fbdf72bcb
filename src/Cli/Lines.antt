-- ===== src/Cli/Lines.antt =====
-- The line of a transcript item for people: `format_human_transcript_line` of crates/cli/src/output.rs.
use acp_hub.Base.{◌||◌, [], ◌++◌, Option, String, if◌then◌else◌, ◌==◌, string_eq}
use acp_hub.Flow.Identity.{codes}
use acp_hub.Store.Transcript.{is_thought, is_toolish}
use acp_hub.Store.Transcript.Bodies.{Text, is_empty}
use acp_hub.Store.Transcript.Compact.{compact_human_body}

unfoldable pub format_human_transcript_line : String → Option String → Text → Text
unfolding compact_human_body is_thought is_toolish
format_human_transcript_line role kind body =
    let b = compact_human_body kind body in
    if is_empty b
    then []
    else if is_thought kind || is_toolish kind
    then codes "  " ++ b
    else if role == "user"
    then codes "You: " ++ b
    else b
