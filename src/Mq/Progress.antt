-- ===== src/Mq/Progress.antt =====
-- kafka_consumer.go: what the consumer can still do from any point of a run: hand every message
-- that is under way to the clients, and end after `Close`.
use hermet.Base.{
  ℕ, ◌+◌, ◌≤◌, ◌≡◌, refl, ap, ◌∙◌, true, List, [], ◌∷◌, ◌++◌, ◌⊎◌, inl, inr, map, arith, Error,
  sentinel, eof, canceled,
}
use hermet.Mq.{
  Message, Loop, reading, sending, ended, KafkaConsumer, is_final, read_failed, cancel_func,
  close_reader, Event, delivered, dropped, silent, Step, read_ok, read_error, send, give_up,
  consume, consume_closed, consume_cancelled, cancel, close_first, close_again,
}
use hermet.Mq.Order.{
  Run, done, next, in_hand, under_way, all_read, all_delivered, IsValid, Run-IsValid,
}

Run-append :
    {c c' c'' : KafkaConsumer} {es es' : List Event}
    → Run c es c'
    → Run c' es' c''
    → Run c (es ++ es') c''
Run-append (done c) r' = r'
Run-append (next s r) r' = next s (Run-append r r')

-- The clients take the whole buffer.
drains :
    (l : List Message) (c : KafkaConsumer)
    → Run (record c { message_chan = l }) (map delivered l) (record c { message_chan = [] })
drains [] c = done _
drains (m ∷ l) c = next (consume m l refl) (drains l c)

all_delivered-deliveries :
    (l : List Message) (es : List Event)
    → all_delivered (map delivered l ++ es) ≡ l ++ all_delivered es
all_delivered-deliveries [] es = refl
all_delivered-deliveries (m ∷ l) es = ap (λ k. m ∷ k) (all_delivered-deliveries l es)

all_read-deliveries :
    (l : List Message) (es : List Event) → all_read (map delivered l ++ es) ≡ all_read es
all_read-deliveries [] es = refl
all_read-deliveries (m ∷ l) es = all_read-deliveries l es

-- What the goroutine does about the message in its hand once the buffer is empty.
abbrev last_steps : Loop → List Event
last_steps reading = []
last_steps (sending m) = silent ∷ delivered m ∷ []
last_steps ended = []

hand_over :
    (l : Loop) (c : KafkaConsumer)
    → c.loop ≡ l
    → c.message_chan ≡ []
    → (c' : KafkaConsumer) × Run c (last_steps l) c' × (under_way c' ≡ [])
hand_over reading c h e = (c, done c, rw (h, e) refl)
hand_over (sending m) c h e = (
  record c { loop = reading; message_chan = [] },
  next (send m h (rw e (omega arith))) (next (consume m [] (rw e refl)) (done _)),
  refl,
)
hand_over ended c h e = (c, done c, rw (h, e) refl)

all_delivered-last_steps : (l : Loop) → all_delivered (last_steps l) ≡ in_hand l
all_delivered-last_steps reading = refl
all_delivered-last_steps (sending m) = refl
all_delivered-last_steps ended = refl

all_read-last_steps : (l : Loop) → all_read (last_steps l) ≡ []
all_read-last_steps reading = refl
all_read-last_steps (sending m) = refl
all_read-last_steps ended = refl

-- No message is stuck: from any state, without a read from kafka and whether or not the consumer
-- was closed, there is a run at whose end the clients have got all that was under way, in order,
-- and nothing is under way.
pub all_can_arrive :
    (c : KafkaConsumer)
    → (es : List Event) × (c' : KafkaConsumer) × Run c es c'
      × (all_read es ≡ [])
      × (all_delivered es ≡ under_way c)
      × (under_way c' ≡ [])
all_can_arrive c =
    let (c', r, none_left) = hand_over c.loop (record c { message_chan = [] }) refl refl in
    (
      map delivered c.message_chan ++ last_steps c.loop,
      c',
      Run-append (drains c.message_chan c) r,
      all_read-deliveries c.message_chan (last_steps c.loop) ∙ all_read-last_steps c.loop,
      all_delivered-deliveries c.message_chan (last_steps c.loop)
          ∙ ap (λ l. c.message_chan ++ l) (all_delivered-last_steps c.loop),
      none_left,
    )

-- How kafka-go says that a reader is closed, or that the context of `ReadMessage` is cancelled.
abbrev pub SaysClosed : Error → Type 0
SaysClosed e = (e ≡ sentinel eof) ⊎ (e ≡ sentinel canceled)

is_final-SaysClosed : (e : Error) → SaysClosed e → is_final e ≡ true
is_final-SaysClosed e (inl h) = rw h refl
is_final-SaysClosed e (inr h) = rw h refl

-- In a step, the reader has nothing for the goroutine but such an error.
abbrev pub Answers : {c c' : KafkaConsumer} {e : Event} → Step c e c' → Type 0
Answers (read_ok m h) = ⊥
Answers (read_error e h) = SaysClosed e
Answers (send m h lt) = Unit
Answers (give_up m h f) = Unit
Answers (consume m rest h) = Unit
Answers (consume_closed h f) = Unit
Answers (consume_cancelled f) = Unit
Answers (cancel h) = Unit
Answers (close_first r h) = Unit
Answers (close_again h) = Unit

-- The steps that the goroutine takes.
abbrev pub turn : {c c' : KafkaConsumer} {e : Event} → Step c e c' → ℕ
turn (read_ok m h) = 1
turn (read_error e h) = 1
turn (send m h lt) = 1
turn (give_up m h f) = 1
turn (consume m rest h) = 0
turn (consume_closed h f) = 0
turn (consume_cancelled f) = 0
turn (cancel h) = 0
turn (close_first r h) = 0
turn (close_again h) = 0

abbrev pub AllAnswers : {c c' : KafkaConsumer} {es : List Event} → Run c es c' → Type 0
AllAnswers (done c) = Unit
AllAnswers (next s r) = Answers s × AllAnswers r

abbrev pub turns : {c c' : KafkaConsumer} {es : List Event} → Run c es c' → ℕ
turns (done c) = 0
turns (next s r) = turn s + turns r

-- The turns that the goroutine has left when the reader is closed.
abbrev pub left : Loop → ℕ
left reading = 1
left (sending m) = 2
left ended = 0

read_failed-left :
    (e : Error) (c : KafkaConsumer) → is_final e ≡ true → left (read_failed e c).loop ≡ 0
unfolding read_failed
read_failed-left e c h = ground arith

Step-left :
    {c c' : KafkaConsumer} {e : Event} (s : Step c e c')
    → Answers s
    → turn s + left c'.loop ≤ left c.loop
unfolding cancel_func close_reader
Step-left (read_ok m h) a = absurd a
Step-left {c} (read_error e h) a =
    omega (arith, ap left h, read_failed-left e c (is_final-SaysClosed e a))
Step-left (send m h lt) a = rw h (omega arith)
Step-left (give_up m h f) a = rw h (omega arith)
Step-left (consume m rest h) a = omega arith
Step-left (consume_closed h f) a = omega arith
Step-left (consume_cancelled f) a = omega arith
Step-left (cancel h) a = omega arith
Step-left (close_first r h) a = omega arith
Step-left (close_again h) a = omega arith

Run-left :
    {c c' : KafkaConsumer} {es : List Event} (r : Run c es c')
    → AllAnswers r
    → turns r + left c'.loop ≤ left c.loop
Run-left (done c) a = omega arith
Run-left (next s r) (a, rest) = omega (arith, Step-left s a, Run-left r rest)

-- A context that is cancelled stays so.
Step-cancelled :
    {c c' : KafkaConsumer} {e : Event} → Step c e c' → c.cancelled ≡ true → c'.cancelled ≡ true
unfolding read_failed cancel_func close_reader
Step-cancelled (read_ok m h) k = k
Step-cancelled (read_error e h) k = ground arith
Step-cancelled (send m h lt) k = k
Step-cancelled (give_up m h f) k = k
Step-cancelled (consume m rest h) k = k
Step-cancelled (consume_closed h f) k = k
Step-cancelled (consume_cancelled f) k = k
Step-cancelled (cancel h) k = refl
Step-cancelled (close_first r h) k = k
Step-cancelled (close_again h) k = k

Run-cancelled :
    {c c' : KafkaConsumer} {es : List Event}
    → Run c es c'
    → c.cancelled ≡ true
    → c'.cancelled ≡ true
Run-cancelled (done c) k = k
Run-cancelled (next s r) k = Run-cancelled r (Step-cancelled s k)

left-le-2 : (l : Loop) → left l ≤ 2
left-le-2 reading = omega arith
left-le-2 (sending m) = omega arith
left-le-2 ended = omega arith

-- The goroutine has ended and closed the channel, or it is not blocked: it has a turn, whichever
-- error says that the reader is closed.
abbrev pub EndsOrMoves : KafkaConsumer → Error → Type 0
EndsOrMoves c e =
    ((c.loop ≡ ended) × (c.chan_closed ≡ true))
    ⊎ ((ev : Event) × (c' : KafkaConsumer) × (s : Step c ev c') × Answers s × (turn s ≡ 1))

moves :
    (l : Loop) (c : KafkaConsumer) (e : Error)
    → c.loop ≡ l
    → c.cancelled ≡ true
    → IsValid c
    → SaysClosed e
    → EndsOrMoves c e
moves reading c e h k v a = inr (silent, _, read_error e h, a, refl)
moves (sending m) c e h k v a = inr (dropped m, _, give_up m h k, tt, refl)
moves ended c e h k v a = inl (h, v.end_closed h)

-- Where a call of `Close` has cancelled the context, and the reader has nothing for the goroutine
-- from then on but the errors that say so (`io.EOF` and `context.Canceled`): in whatever run of the
-- goroutine, the clients and `Close`, the goroutine takes two steps at most, and at the end of the
-- run it has ended with the channel closed, or it has a step that it can take.
pub ends_after_close :
    {c c' : KafkaConsumer} {es : List Event}
    → IsValid c
    → c.cancelled ≡ true
    → (r : Run c es c') → AllAnswers r
    → (e : Error) → SaysClosed e
    → (turns r ≤ 2) × EndsOrMoves c' e
ends_after_close {c} {c'} v k r all e a = (
  omega (arith, Run-left r all, left-le-2 c.loop),
  moves c'.loop c' e refl (Run-cancelled r k) (Run-IsValid v r) a,
)
