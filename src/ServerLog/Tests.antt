-- ===== src/ServerLog/Tests.antt =====
-- A server log grouped, and the theorems at it.
use Prim.Native.String.{String}
use text.Mathlib.Text.{◌==◌ as str_eq}
use ircfiber_site.Common.{ℕ, ◌≤◌, ◌≡◌, refl, Bool, false, List, [], ◌∷◌, map, length, filter}
use ircfiber_site.ServerLog.{ServerMessage, among, is_set, classify_numeric, classify_server_log}
use ircfiber_site.ServerLog.Dedup.{
  is_disconnect, is_connect, is_recent, time_of, set_time, delete_time, see_lifecycle, open_window,
  end_attempt, canon_text, key_of, see_in_window, is_chat, see, dedup_from, dedup_phase_events,
}
use ircfiber_site.ServerLog.Groups.{
  pending, disconnected, ServerLogAttempt, new_attempt, any, current_of, starts_connect,
  is_start_phase, is_end_of_attempt, modify_at, modify_current, push_current, push_phase,
  set_disconnected, set_end, is_ended, ended_last, lifecycle_outside,
}
use ircfiber_site.ServerLog.Groups.Step.{
  is_pending, joins, is_discarded, supersede_ended, open_attempt, start_phase, is_chatter,
  reopen_last, ensure_current, is_worded, distribute, succeeds, set_success, supersede_others,
  index_of, succeed, finish, has_no_current, is_skip, is_lifecycle, fold_in, group_step, group_from,
  group_server_log,
}
use ircfiber_site.ServerLog.Groups.Count.{count, total, is_bucketed}
use ircfiber_site.ServerLog.Groups.Conserve.{group_server_log-total}
use ircfiber_site.ServerLog.Groups.Single.{group_server_log-successes}
use ircfiber_site.ServerLog.Groups.Successes.{successes}

abbrev phase_row : String → ℕ → ServerMessage
phase_row phase t = record {
  phase = phase;
  command = "";
  text = phase;
  params = [];
  t = t;
  self_echo = false;
}

abbrev command_row : String → ℕ → ServerMessage
command_row command t = record {
  phase = "";
  command = command;
  text = "hello";
  params = [];
  t = t;
  self_echo = false;
}

abbrev remove : String → String → String
remove r s = s

abbrev trim : String → String
trim s = s

abbrev slice : ℕ → String → String
slice n s = s

abbrev three_digits : String → Bool
three_digits s = str_eq s "372"

-- A connect with a duplicate, its MOTD, the disconnect, and a notice behind it.
abbrev log : List ServerMessage
log =
    phase_row "queued" 100
    ∷ phase_row "queued" 101
    ∷ phase_row "welcome" 200
    ∷ command_row "372" 300
    ∷ command_row "DISCONNECTED" 400
    ∷ command_row "NOTICE" 500
    ∷ []

duplicate_dropped : length (dedup_phase_events remove trim slice log) ≡ 5
unfolding dedup_phase_events dedup_from see see_in_window see_lifecycle open_window end_attempt
    is_recent time_of set_time delete_time is_chat is_set is_disconnect is_connect among key_of
    canon_text
duplicate_dropped = refl

-- The notice behind the disconnect opens a second attempt, which stays pending.
notice_after_disconnect :
    map (λ (a : ServerLogAttempt). a.status) (group_server_log three_digits remove trim slice log)
    ≡ disconnected ∷ pending ∷ []
unfolding group_server_log group_from group_step classify_server_log classify_numeric is_skip
    is_lifecycle has_no_current is_start_phase current_of starts_connect any start_phase joins
    modify_current push_phase supersede_ended open_attempt is_discarded push_current fold_in
    ensure_current reopen_last is_chatter ended_last is_ended distribute is_worded set_disconnected
    is_end_of_attempt finish succeeds is_pending succeed set_success supersede_others index_of
    set_end lifecycle_outside new_attempt modify_at dedup_phase_events dedup_from see see_in_window
    see_lifecycle open_window end_attempt is_recent time_of set_time delete_time is_chat is_set
    is_disconnect is_connect among key_of canon_text
notice_after_disconnect = refl

abbrev is_notice : ServerMessage → Bool
is_notice m = str_eq m.command "NOTICE"

group_server_log-total_example :
    total is_notice (group_server_log three_digits remove trim slice log)
    ≡ count is_notice (
        filter
          (λ m. is_bucketed trim (classify_server_log three_digits m) m)
          (dedup_phase_events remove trim slice log))
group_server_log-total_example = group_server_log-total three_digits remove trim slice is_notice log

group_server_log-successes_example :
    successes (group_server_log three_digits remove trim slice log) ≤ 1
group_server_log-successes_example = group_server_log-successes three_digits remove trim slice log
