-- ===== src/Tests/Queue.antt =====
-- A run of the kafka consumer (internal/pkg/xmq/consumer): one message is read, buffered and
-- consumed, the next is in hand when the consumer is closed.
use hermet.Base.{
  ℕ, ◌≤◌, ◌≡◌, refl, List, [], ◌∷◌, ◌++◌, arith, true, false, none, ok, inl, inr, sentinel, eof,
  canceled,
}
use hermet.Mq.{
  KafkaMessage, set_header, add_headers, convert_message, ended, sending, KafkaConsumer,
  new_kafka_consumer, cancelling, finished, cancel_func, close_reader, read_failed, Event, read,
  delivered, dropped, closed, silent, read_ok, send, consume, cancel, close_first, read_error,
  give_up,
}
use hermet.Mq.Fifo.{Served, fifo, Run-Served}
use hermet.Mq.Progress.{all_can_arrive, turns, EndsOrMoves, ends_after_close}
use hermet.Mq.Clients.{Consumes-Explained, Explained, got}
use hermet.Mq.Order.{
  Run, done, next, all_read, all_delivered, all_dropped, under_way, IsValid,
  new_kafka_consumer-IsValid, Run-IsValid, Run-balance,
}

abbrev numbered : ℕ → KafkaMessage
numbered n = record {
  headers = ("trace", "a") ∷ ("trace", "b") ∷ [];
  topic = "message";
  partition = 0;
  offset = n;
  key = n ∷ [];
  value = 1 ∷ [];
}

-- The last of two headers with one name is kept.
last_header : (convert_message (numbered 4)).headers ≡ ("trace", "b") ∷ []
unfolding convert_message add_headers set_header
last_header = refl

-- The context is cancelled, and `Close` has not closed the reader yet.
abbrev closed_full : KafkaConsumer
closed_full = record {
  loop = ended;
  message_chan = [];
  chan_closed = true;
  cancelled = true;
  reader_closed = false;
  close_once = cancelling;
}

abbrev events : List Event
events =
    read (numbered 0)
    ∷ silent
    ∷ delivered (convert_message (numbered 0))
    ∷ read (numbered 1)
    ∷ silent
    ∷ dropped (convert_message (numbered 1))
    ∷ []

a_run : Run new_kafka_consumer events closed_full
unfolding new_kafka_consumer cancel_func
a_run = next (read_ok (numbered 0) refl) (
    next (send (convert_message (numbered 0)) refl (omega arith)) (
      next (consume (convert_message (numbered 0)) [] refl) (
        next (read_ok (numbered 1) refl) (
          next (cancel refl)
            (next (give_up (convert_message (numbered 1)) refl refl) (done closed_full))))))

Run-balance_example :
    under_way new_kafka_consumer ++ all_read events
    ≡ all_delivered events ++ (under_way closed_full ++ all_dropped events)
Run-balance_example = Run-balance a_run

Run-IsValid_example : IsValid closed_full
Run-IsValid_example = Run-IsValid new_kafka_consumer-IsValid a_run

Run-Served_example : Served (fifo new_kafka_consumer) events (fifo closed_full)
Run-Served_example = Run-Served new_kafka_consumer-IsValid a_run

-- One message is buffered and one is in hand.
abbrev busy : KafkaConsumer
busy = record new_kafka_consumer {
  loop = sending (convert_message (numbered 1));
  message_chan = convert_message (numbered 0) ∷ [];
}

busy-IsValid : IsValid busy
unfolding new_kafka_consumer
busy-IsValid = ground arith

all_can_arrive_example :
    (es : List Event) × (c' : KafkaConsumer) × Run busy es c'
    × (all_read es ≡ [])
    × (all_delivered es ≡ convert_message (numbered 0) ∷ convert_message (numbered 1) ∷ [])
    × (under_way c' ≡ [])
all_can_arrive_example = all_can_arrive busy

abbrev busy_cancelled : KafkaConsumer
busy_cancelled = record busy { cancelled = true; close_once = cancelling }

busy_cancelled-IsValid : IsValid busy_cancelled
unfolding new_kafka_consumer
busy_cancelled-IsValid = ground arith

-- `Close` closes the reader, the message in hand is sent all the same, and the reader says that it
-- is closed.
abbrev after_close : KafkaConsumer
after_close = record busy_cancelled {
  loop = ended;
  message_chan = convert_message (numbered 0) ∷ convert_message (numbered 1) ∷ [];
  chan_closed = true;
  reader_closed = true;
  close_once = finished;
}

winds_up : Run busy_cancelled (closed none ∷ silent ∷ silent ∷ []) after_close
unfolding new_kafka_consumer close_reader read_failed
winds_up = next (close_first none refl) (
    next (send (convert_message (numbered 1)) refl (omega arith))
      (next (read_error (sentinel eof) refl) (done after_close)))

ends_after_close_example : (turns winds_up ≤ 2) × EndsOrMoves after_close (sentinel canceled)
unfolding winds_up
ends_after_close_example =
    ends_after_close busy_cancelled-IsValid refl winds_up (tt, (tt, (inl refl, tt)))
      (sentinel canceled) (inr refl)

Consumes-Explained_example : Explained busy none (ok (convert_message (numbered 0)))
Consumes-Explained_example =
    Consumes-Explained {own = none} busy-IsValid (got (convert_message (numbered 0)) [] refl)
