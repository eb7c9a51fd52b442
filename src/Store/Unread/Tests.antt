-- ===== src/Store/Unread/Tests.antt =====
-- A buffer that is half read, and the theorems at it.
use Prim.Native.String.{String}
use ircfiber_site.Common.{◌+◌, ◌≡◌, refl, true, false, ◌||◌, none, some, List, [], ◌∷◌, arith}
use ircfiber_site.Store.Unread.{
  Row, Unread, filter_above, count_after, finish_seen, set_last_seen_at_bottom, move_bottom,
  update_bottom_seen, set_last_seen_message,
}
use ircfiber_site.Store.Unread.Arrive.{
  Arrival, Setting, is_message_unseen, record_highlight, has_time, add_time, merge_times,
  insert_time, sort_times, set_unseen_highlights, finish_arrivals, is_self_message,
  is_important_message, is_highlightable_message, count_arrival, arrive, arrive_all,
  apply_add_message_unseen,
}
use ircfiber_site.Store.Unread.Arrive.Sorted.{IsAscending}
use ircfiber_site.Store.Unread.Arrive.Settled.{apply_add_message_unseen-IsSettled}
use ircfiber_site.Store.Unread.Arrive.Orderly.{AreUnseen, IsSettled}
use ircfiber_site.Store.Unread.Arrive.Counted.{
  count_arrivals, highlight_times, apply_add_message_unseen-counts,
}

abbrev rows_newest_first : List Row
rows_newest_first =
    record { t = 9; important = true }
    ∷ record { t = 7; important = false }
    ∷ record { t = 5; important = true }
    ∷ []

abbrev half_read : Unread
half_read = record {
  last_seen = some 4;
  bottom_seen = some 4;
  focus_seen = none;
  unseen = true;
  unseen_count = 2;
  unseen_highlights = 5 ∷ 9 ∷ [];
  source = some rows_newest_first;
  newest = some 9;
  dirty = none;
  is_focused = true;
}

one_left : (set_last_seen_message 7 half_read).unseen_count ≡ 1
unfolding set_last_seen_message update_bottom_seen move_bottom set_last_seen_at_bottom finish_seen
    count_after filter_above
one_left = refl

-- A private message at 10 in a buffer that is half read, and one of the user's own.
abbrev private_message : Arrival
private_message = record {
  message = record {
    t = 10;
    eid = none;
    msgid = "m";
    label = "";
    nick = "bob";
    command = "PRIVMSG";
    params = [];
    text = "hi";
    self_echo = false;
    redacted = false;
    redact_reason = "";
    redacted_by = "";
    edited = false;
    edit_of = "";
    reply_to = "";
    reaction = none;
    reactions = [];
  };
  is_action = false;
  highlight = false;
  ignored = false;
  mentions = false;
}

abbrev own_message : Arrival
own_message = record private_message {
  message = record private_message.message { nick = "me"; t = 11 };
}

abbrev query : Setting
query = record {
  is_server = false;
  is_query = true;
  mute = false;
  boot_complete = true;
  current_nick = "me";
}

abbrev lower_case : String → String
lower_case s = s

abbrev arrived : List Arrival
arrived = private_message ∷ own_message ∷ []

half_read-IsSettled : IsSettled half_read
unfolding AreUnseen IsAscending
half_read-IsSettled = record {
  orderly = record { flag = refl; ascending = ((omega arith, tt), (tt, tt)) };
  unread = (omega arith, (omega arith, tt));
}

one_counted :
    (apply_add_message_unseen lower_case query arrived [] half_read).unread.unseen_highlights
    ≡ 5 ∷ 9 ∷ 10 ∷ []
unfolding apply_add_message_unseen finish_arrivals arrive_all arrive count_arrival is_message_unseen
    is_self_message is_important_message is_highlightable_message record_highlight
    set_unseen_highlights merge_times add_time has_time sort_times insert_time
one_counted = refl

apply_add_message_unseen-IsSettled_example :
    IsSettled (apply_add_message_unseen lower_case query arrived [] half_read).unread
apply_add_message_unseen-IsSettled_example =
    apply_add_message_unseen-IsSettled lower_case query arrived [] half_read half_read-IsSettled

apply_add_message_unseen-counts_example :
    ((apply_add_message_unseen lower_case query arrived [] half_read).unread.unseen_count
      ≡ 2 + count_arrivals lower_case query (some 4) arrived)
    × ((apply_add_message_unseen lower_case query arrived [] half_read).unread.last_seen ≡ some 4)
    × (has_time 10
          (apply_add_message_unseen lower_case query arrived [] half_read).unread.unseen_highlights
        ≡ (has_time 10 (5 ∷ 9 ∷ [])
            || has_time 10 (highlight_times lower_case query (some 4) arrived)))
apply_add_message_unseen-counts_example =
    apply_add_message_unseen-counts lower_case query arrived [] half_read 10 refl refl
