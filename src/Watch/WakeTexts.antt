-- ===== src/Watch/WakeTexts.antt =====
-- The texts of shared/wake-check/src/lib.rs about a wake request.
use m5stack_pc_remote.Base.{ℕ, ◌/◌, ◌%◌, ◌++◌, ◌==◌, if◌then◌else◌}
use m5stack_pc_remote.Base.Decimal.{show_ℕ}
use m5stack_pc_remote.Base.Text.{Text, text}

abbrev pub wake_request_text : Text
wake_request_text = text "PCの起動を指示しました。"

abbrev pub wake_request_failed_text : Text
wake_request_failed_text = text "PCの起動の指示に失敗しました。"

-- The `match (minutes, seconds)`.
abbrev elapsed_parts : ℕ → ℕ → Text
elapsed_parts minutes seconds =
    if minutes == 0
    then show_ℕ seconds ++ text "秒"
    else if seconds == 0
    then show_ℕ minutes ++ text "分"
    else show_ℕ minutes ++ (text "分" ++ (show_ℕ seconds ++ text "秒"))

unfoldable pub format_elapsed_ja : ℕ → Text
format_elapsed_ja elapsed_secs = elapsed_parts (elapsed_secs / 60) (elapsed_secs % 60)

unfoldable pub wake_succeeded_text : ℕ → Text
wake_succeeded_text elapsed_secs =
    text "PCが起動しました(所要時間 " ++ (format_elapsed_ja elapsed_secs ++ text ")。")

unfoldable pub wake_timed_out_text : ℕ → Text
wake_timed_out_text elapsed_secs =
    text "PCが起動しませんでした(指示から " ++ (show_ℕ (elapsed_secs / 60) ++ text "分経過)。")
