-- ===== src/Mq/Fifo.antt =====
-- kafka_consumer.go as a bounded first-in first-out queue: what a client may rely on without the
-- goroutine, the channel and the context in sight; and what the consumer can still do from any
-- point of a run.
use mathlib.Core.List.{append-nil}
use hermet.Base.{
  Option, none, Error, ℕ, ◌+◌, ◌<◌, ◌≡◌, refl, ap, sym, true, false, Bool, if◌then◌else◌, List, [],
  ◌∷◌, ◌++◌, length, arith,
}
use hermet.Mq.{
  Message, KafkaMessage, convert_message, Loop, reading, sending, ended, KafkaConsumer, read_failed,
  cancel_func, close_reader, is_final, Event, read, delivered, dropped, closed, silent, Step,
  read_ok, read_error, send, give_up, consume, consume_closed, consume_cancelled, cancel,
  close_first, close_again, default_message_chan_size,
}
use hermet.Mq.Order.{Run, done, next, under_way, Moves, Step-Moves, IsValid, Step-IsValid}

-- The queue of the specification: its messages, oldest first, and whether more may come.
pub record Fifo : Type 0 where
  pub items : List Message
  pub open_end : Bool

-- The channel's buffer and the message in the goroutine's hand.
abbrev pub capacity : ℕ
capacity = default_message_chan_size + 1

-- What the queue may do: take a message in while there is room and the end is open, hand out its
-- oldest message, shut, or shut without its newest message.
pub data Serves (q q' : Fifo) : Event → Type 0 where
  enqueue :
      (m : KafkaMessage)
      → q.open_end ≡ true
      → length q.items < capacity
      → q'.open_end ≡ true
      → q'.items ≡ q.items ++ convert_message m ∷ []
      → Serves q q' (read m)
  dequeue :
      (m : Message) → q'.open_end ≡ q.open_end → q.items ≡ m ∷ q'.items → Serves q q' (delivered m)
  idle : q'.open_end ≡ q.open_end → q'.items ≡ q.items → Serves q q' silent
  idle_closed :
      (r : Option Error) → q'.open_end ≡ q.open_end → q'.items ≡ q.items → Serves q q' (closed r)
  shut : q.open_end ≡ true → q'.open_end ≡ false → q'.items ≡ q.items → Serves q q' silent
  discard :
      (m : Message)
      → q.open_end ≡ true
      → q'.open_end ≡ false
      → q.items ≡ q'.items ++ m ∷ []
      → Serves q q' (dropped m)

pub data Served : Fifo → List Event → Fifo → Type 0 where
  rests : (q : Fifo) → Served q [] q
  serves :
      {q q' q'' : Fifo} {e : Event} {es : List Event}
      → Serves q q' e
      → Served q' es q''
      → Served q (e ∷ es) q''

abbrev pub is_open : Loop → Bool
is_open reading = true
is_open (sending m) = true
is_open ended = false

-- The consumer as the queue that it is to its clients.
abbrev pub fifo : KafkaConsumer → Fifo
fifo c = record { items = under_way c; open_end = is_open c.loop }

has_room : (c : KafkaConsumer) → IsValid c → c.loop ≡ reading → length (under_way c) < capacity
has_room c v h = rw h (rw append-nil (ground (arith, v.bounded)))

-- What a failed read is to the queue: it is shut, or nothing happens.
fails :
    (final : Bool) (c : KafkaConsumer)
    → c.loop ≡ reading
    → let c' = if final then record c { loop = ended; chan_closed = true } else c in
      under_way c' ≡ under_way c → Serves (fifo c) (fifo c') silent
fails true c h mv = shut (ap is_open h) refl mv
fails false c h mv = idle refl refl

Step-Serves :
    {c c' : KafkaConsumer} {e : Event}
    → IsValid c
    → Step c e c'
    → Moves c e c'
    → Serves (fifo c) (fifo c') e
unfolding read_failed cancel_func close_reader
Step-Serves {c} v (read_ok m h) mv = enqueue m (ap is_open h) (has_room c v h) refl mv
Step-Serves {c} v (read_error e h) mv = fails (is_final e) c h mv
Step-Serves v (send m h lt) mv = idle (sym (ap is_open h)) mv
Step-Serves v (give_up m h f) mv = discard m (ap is_open h) refl mv.0
Step-Serves v (consume m rest h) mv = dequeue m refl mv
Step-Serves v (consume_closed h f) mv = idle refl refl
Step-Serves v (consume_cancelled f) mv = idle refl refl
Step-Serves v (cancel h) mv = idle refl mv
Step-Serves v (close_first r h) mv = idle_closed r refl mv
Step-Serves v (close_again h) mv = idle_closed none refl mv

-- From a valid state, whatever the goroutine, the clients and `Close` do, and in whatever order, is
-- what a first-in first-out queue of 1025 messages does: it takes in what the reader gave only
-- while it has room and is open, hands out its oldest message, and is shut for good, once, and
-- without its newest message at most.
pub Run-Served :
    {c c' : KafkaConsumer} {es : List Event}
    → IsValid c
    → Run c es c'
    → Served (fifo c) es (fifo c')
Run-Served v (done c) = rests (fifo c)
Run-Served v (next s r) = serves (Step-Serves v s (Step-Moves s)) (Run-Served (Step-IsValid v s) r)
