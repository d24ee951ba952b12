-- ===== src/Mq/Order.antt =====
-- kafka_consumer.go: no message is lost, doubled or moved on its way from the reader to the
-- clients.
use mathlib.Core.List.{append-nil, append_assoc}
use hermet.Base.{
  ◌≤◌, ◌≡◌, refl, sym, ap, ◌∙◌, Bool, true, false, List, [], ◌∷◌, ◌++◌, length, length-append,
  arith,
}
use hermet.Mq.{
  Message, convert_message, Loop, reading, sending, ended, CloseOnce, untouched, cancelling,
  finished, KafkaConsumer, new_kafka_consumer, read_failed, cancel_func, close_reader, Event, read,
  delivered, dropped, closed, silent, Step, read_ok, read_error, send, give_up, consume,
  consume_closed, consume_cancelled, cancel, close_first, close_again, default_message_chan_size,
}

-- A run of the consumer, with the messages that were read and delivered on the way, in order, and
-- those that were dropped.
pub data Run : KafkaConsumer → List Event → KafkaConsumer → Type 0 where
  done : (c : KafkaConsumer) → Run c [] c
  next :
      {c c' c'' : KafkaConsumer} {e : Event} {es : List Event}
      → Step c e c'
      → Run c' es c''
      → Run c (e ∷ es) c''

abbrev pub all_read : List Event → List Message
all_read [] = []
all_read (read m ∷ es) = convert_message m ∷ all_read es
all_read (delivered m ∷ es) = all_read es
all_read (dropped m ∷ es) = all_read es
all_read (closed r ∷ es) = all_read es
all_read (silent ∷ es) = all_read es

abbrev pub all_delivered : List Event → List Message
all_delivered [] = []
all_delivered (read m ∷ es) = all_delivered es
all_delivered (delivered m ∷ es) = m ∷ all_delivered es
all_delivered (dropped m ∷ es) = all_delivered es
all_delivered (closed r ∷ es) = all_delivered es
all_delivered (silent ∷ es) = all_delivered es

abbrev pub all_dropped : List Event → List Message
all_dropped [] = []
all_dropped (read m ∷ es) = all_dropped es
all_dropped (delivered m ∷ es) = all_dropped es
all_dropped (dropped m ∷ es) = m ∷ all_dropped es
all_dropped (closed r ∷ es) = all_dropped es
all_dropped (silent ∷ es) = all_dropped es

abbrev pub in_hand : Loop → List Message
in_hand reading = []
in_hand (sending m) = m ∷ []
in_hand ended = []

abbrev pub has_begun : CloseOnce → Bool
has_begun untouched = false
has_begun cancelling = true
has_begun finished = true

abbrev pub is_finished : CloseOnce → Bool
is_finished untouched = false
is_finished cancelling = false
is_finished finished = true

-- The buffer is bounded, and the channel is closed exactly when the goroutine has ended: it is
-- closed once, and nothing is sent on it after that.
pub record IsValid (c : KafkaConsumer) : Type 0 where
  pub bounded : length c.message_chan ≤ default_message_chan_size
  pub closed_at_end : c.chan_closed ≡ true → c.loop ≡ ended
  pub end_closed : c.loop ≡ ended → c.chan_closed ≡ true
  pub cancelled_begun : c.cancelled ≡ has_begun c.close_once
  pub reader_finished : c.reader_closed ≡ is_finished c.close_once

pub Step-IsValid : {c c' : KafkaConsumer} {e : Event} → IsValid c → Step c e c' → IsValid c'
unfolding read_failed cancel_func close_reader
Step-IsValid {c} v (read_ok m h) = ground arith
Step-IsValid {c} v (read_error e h) = ground arith
Step-IsValid {c} v (send m h lt) = ground (arith, length-append c.message_chan (m ∷ []))
Step-IsValid {c} v (give_up m h f) = ground arith
Step-IsValid {c} v (consume m rest h) = ground arith
Step-IsValid {c} v (consume_closed h f) = v
Step-IsValid {c} v (consume_cancelled f) = v
Step-IsValid {c} v (cancel h) = ground arith
Step-IsValid {c} v (close_first r h) = ground arith
Step-IsValid {c} v (close_again h) = v

pub new_kafka_consumer-IsValid : IsValid new_kafka_consumer
unfolding new_kafka_consumer
new_kafka_consumer-IsValid = ground arith

-- Whatever the goroutine, the clients and `Close` do, and in whatever order, the buffer stays
-- within its size, the channel is closed exactly when the goroutine has ended, the context is
-- cancelled exactly when the function of `closeOnce` has begun, and the reader is closed exactly
-- when this function has returned, so never before the context is cancelled, if all this held at
-- the start.
pub Run-IsValid : {c c' : KafkaConsumer} {es : List Event} → IsValid c → Run c es c' → IsValid c'
Run-IsValid v (done c) = v
Run-IsValid v (next s r) = Run-IsValid (Step-IsValid v s) r

-- What is between the reader and the clients.
abbrev pub under_way : KafkaConsumer → List Message
under_way c = c.message_chan ++ in_hand c.loop

-- What one step does to what is under way.
abbrev pub Moves : KafkaConsumer → Event → KafkaConsumer → Type 0
Moves c (read m) c' = under_way c' ≡ under_way c ++ convert_message m ∷ []
Moves c (delivered m) c' = under_way c ≡ m ∷ under_way c'
Moves c (dropped m) c' = (under_way c ≡ under_way c' ++ m ∷ []) × (c'.loop ≡ ended)
Moves c (closed r) c' = under_way c' ≡ under_way c
Moves c silent c' = under_way c' ≡ under_way c

pub Step-Moves : {c c' : KafkaConsumer} {e : Event} → Step c e c' → Moves c e c'
unfolding read_failed cancel_func close_reader
Step-Moves (read_ok m h) = rw h (rw append-nil)
Step-Moves (read_error e h) = ground arith
Step-Moves (send m h lt) = rw h (rw append-nil)
Step-Moves (give_up m h f) = (rw h (rw append-nil), refl)
Step-Moves (consume m rest h) = rw h
Step-Moves (consume_closed h f) = refl
Step-Moves (consume_cancelled f) = refl
Step-Moves (cancel h) = refl
Step-Moves (close_first r h) = refl
Step-Moves (close_again h) = refl

-- The goroutine does not start again.
Step-ended : {c c' : KafkaConsumer} {e : Event} → Step c e c' → c.loop ≡ ended → c'.loop ≡ ended
unfolding read_failed cancel_func close_reader
Step-ended (read_ok m h) k = cc
Step-ended (read_error e h) k = cc
Step-ended (send m h lt) k = cc
Step-ended (give_up m h f) k = refl
Step-ended (consume m rest h) k = k
Step-ended (consume_closed h f) k = k
Step-ended (consume_cancelled f) k = k
Step-ended (cancel h) k = k
Step-ended (close_first r h) k = k
Step-ended (close_again h) k = k

abbrev Takes : Event → Type 0
Takes (read m) = ⊥
Takes (delivered m) = Unit
Takes (dropped m) = ⊥
Takes (closed r) = Unit
Takes silent = Unit

Step-ended_Takes : {c c' : KafkaConsumer} {e : Event} → Step c e c' → c.loop ≡ ended → Takes e
Step-ended_Takes (read_ok m h) k = cc
Step-ended_Takes (read_error e h) k = tt
Step-ended_Takes (send m h lt) k = tt
Step-ended_Takes (give_up m h f) k = cc
Step-ended_Takes (consume m rest h) k = tt
Step-ended_Takes (consume_closed h f) k = tt
Step-ended_Takes (consume_cancelled f) k = tt
Step-ended_Takes (cancel h) k = tt
Step-ended_Takes (close_first r h) k = tt
Step-ended_Takes (close_again h) k = tt

nothing_new :
    (e : Event) (es : List Event)
    → Takes e
    → (all_read es ≡ []) × (all_dropped es ≡ [])
    → (all_read (e ∷ es) ≡ []) × (all_dropped (e ∷ es) ≡ [])
nothing_new (read m) es t h = absurd t
nothing_new (delivered m) es t h = h
nothing_new (dropped m) es t h = absurd t
nothing_new (closed r) es t h = h
nothing_new silent es t h = h

Run-ended :
    {c c' : KafkaConsumer} {es : List Event}
    → Run c es c'
    → c.loop ≡ ended
    → (all_read es ≡ []) × (all_dropped es ≡ [])
Run-ended (done c) k = (refl, refl)
Run-ended (next {e = e} {es = es} s r) k =
    nothing_new e es (Step-ended_Takes s k) (Run-ended r (Step-ended s k))

last_dropped :
    (xs q del u rd dr : List Message) (m : Message)
    → rd ≡ []
    → dr ≡ []
    → xs ≡ q ++ m ∷ []
    → q ++ rd ≡ del ++ (u ++ dr)
    → xs ++ rd ≡ del ++ (u ++ m ∷ dr)
last_dropped xs q del u rd dr m r d x b =
    rw (r, d, append-nil)
      (x
        ∙ ap (λ l. l ++ m ∷ []) (rw (r, d, append-nil, append-nil) at b)
        ∙ append_assoc del u (m ∷ []))

-- The messages of the rest of a run, behind one event.
abbrev Balance : List Message → List Event → KafkaConsumer → Type 0
Balance q es c'' = q ++ all_read es ≡ all_delivered es ++ (under_way c'' ++ all_dropped es)

one_event :
    (c c' c'' : KafkaConsumer) (e : Event) (es : List Event)
    → Moves c e c'
    → (c'.loop ≡ ended → (all_read es ≡ []) × (all_dropped es ≡ []))
    → Balance (under_way c') es c''
    → Balance (under_way c) (e ∷ es) c''
one_event c c' c'' (read m) es mv fin b =
    sym (append_assoc (under_way c) (convert_message m ∷ []) (all_read es))
    ∙ ap (λ q. q ++ all_read es) (sym mv)
    ∙ b
one_event c c' c'' (delivered m) es mv fin b = ap (λ q. q ++ all_read es) mv ∙ ap (λ l. m ∷ l) b
one_event c c' c'' (dropped m) es (mv, end) fin b =
    last_dropped _ _ _ _ _ _ m (fin end).0 (fin end).1 mv b
one_event c c' c'' (closed r) es mv fin b = ap (λ q. q ++ all_read es) (sym mv) ∙ b
one_event c c' c'' silent es mv fin b = ap (λ q. q ++ all_read es) (sym mv) ∙ b

-- In any run, the messages that were under way at the start and then those that the reader gave,
-- converted, are, in this order and without a gap or a double: those that the clients got, those
-- that are still under way, and those that the goroutine gave up because the consumer was closed.
pub Run-balance :
    {c c' : KafkaConsumer} {es : List Event}
    → Run c es c'
    → under_way c ++ all_read es ≡ all_delivered es ++ (under_way c' ++ all_dropped es)
Run-balance (done c) = refl
Run-balance (next {c = c} {c' = c'} {c'' = c''} {e = e} {es = es} s r) =
    one_event c c' c'' e es (Step-Moves s) (Run-ended r) (Run-balance r)

abbrev EndsOnDrop : Event → KafkaConsumer → Type 0
EndsOnDrop (read m) c' = Unit
EndsOnDrop (delivered m) c' = Unit
EndsOnDrop (dropped m) c' = c'.loop ≡ ended
EndsOnDrop (closed r) c' = Unit
EndsOnDrop silent c' = Unit

Step-EndsOnDrop : {c c' : KafkaConsumer} {e : Event} → Step c e c' → EndsOnDrop e c'
Step-EndsOnDrop (read_ok m h) = tt
Step-EndsOnDrop (read_error e h) = tt
Step-EndsOnDrop (send m h lt) = tt
Step-EndsOnDrop (give_up m h f) = refl
Step-EndsOnDrop (consume m rest h) = tt
Step-EndsOnDrop (consume_closed h f) = tt
Step-EndsOnDrop (consume_cancelled f) = tt
Step-EndsOnDrop (cancel h) = tt
Step-EndsOnDrop (close_first r h) = tt
Step-EndsOnDrop (close_again h) = tt

at_most_one :
    (e : Event) (es : List Event) (c' : KafkaConsumer)
    → EndsOnDrop e c'
    → (c'.loop ≡ ended → all_dropped es ≡ [])
    → length (all_dropped es) ≤ 1
    → length (all_dropped (e ∷ es)) ≤ 1
at_most_one (read m) es c' mv fin b = b
at_most_one (delivered m) es c' mv fin b = b
at_most_one (dropped m) es c' mv fin b = rw (fin mv) (omega arith)
at_most_one (closed r) es c' mv fin b = b
at_most_one silent es c' mv fin b = b

-- A run gives up one message at most, however long it is.
pub Run-drops : {c c' : KafkaConsumer} {es : List Event} → Run c es c' → length (all_dropped es) ≤ 1
Run-drops (done c) = omega arith
Run-drops (next {c' = c'} {e = e} {es = es} s r) =
    at_most_one e es c' (Step-EndsOnDrop s) (λ k. (Run-ended r k).1) (Run-drops r)
