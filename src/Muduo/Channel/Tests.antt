-- ===== src/Muduo/Channel/Tests.antt =====
-- Events at a channel with all its callbacks.
use learn_note.Prelude.{true, false, ◌≡◌, refl, [], ◌∷◌}
use learn_note.Muduo.Channel.{Channel, init, read_event, none_event, error, read, handle_event}
use learn_note.Muduo.Channel.Dispatch.{Exactly, handle_event_lem}

abbrev fallen : Channel
fallen = record (init 5) {
  events = read_event;
  revents = record none_event { readable = true; error = true; hang_up = true };
  tied = true;
  has_read = true;
  has_write = true;
  has_close = true;
  has_error = true;
}

-- There is something to read, so the hang-up does not close.
fallen_calls : handle_event fallen true ≡ error ∷ read ∷ []
unfolding handle_event
fallen_calls = refl

handle_event_lem_example : Exactly false true true false (handle_event fallen true)
handle_event_lem_example = handle_event_lem fallen true
