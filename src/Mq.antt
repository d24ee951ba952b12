-- ===== src/Mq.antt =====
-- internal/pkg/xmq: messages (types.go), the kafka producer (produce/kafka_producer.go) and the
-- kafka consumer (consumer/kafka_consumer.go). The consumer's goroutine, its clients and `Close`
-- run side by side: each thing that one of them does at the channel, the context or the reader is
-- a step.
pub mod Order
pub mod Fifo
pub mod Progress
pub mod Clients
use hermet.Base.{
  ℕ, ◌<◌, ◌≡◌, String, Bool, true, false, ◌||◌, Option, none, some, List, [], ◌∷◌, ◌++◌, same,
  if◌then◌else◌, length, Error, is, closed_pipe, eof, canceled, Exec,
}

abbrev pub Bytes : Type 0
Bytes = List ℕ

-- `Headers`, a Go map.
abbrev pub Headers : Type 0
Headers = List (String × String)

unfoldable pub set_header : String → String → Headers → Headers
set_header k v [] = (k, v) ∷ []
set_header k v ((j, w) ∷ m) = if same j k then (j, v) ∷ m else (j, w) ∷ set_header k v m

unfoldable pub get_header : String → Headers → Option String
get_header k [] = none
get_header k ((j, v) ∷ m) = if same j k then some v else get_header k m

-- `xmq.Message`
pub record Message : Type 0 where
  pub headers : Headers
  pub topic : String
  pub partition : ℕ
  pub offset : ℕ
  pub key : Bytes
  pub val : Bytes

-- `kafka.Message`, whose headers are a list of pairs.
pub record KafkaMessage : Type 0 where
  pub headers : List (String × String)
  pub topic : String
  pub partition : ℕ
  pub offset : ℕ
  pub key : Bytes
  pub value : Bytes

-- `headers[header.Key] = string(header.Value)` for each header
unfoldable pub add_headers : List (String × String) → Headers → Headers
unfolding set_header
add_headers [] m = m
add_headers ((k, v) ∷ l) m = add_headers l (set_header k v m)

unfoldable pub convert_message : KafkaMessage → Message
unfolding add_headers
convert_message m = record {
  headers = add_headers m.headers [];
  topic = m.topic;
  partition = m.partition;
  offset = m.offset;
  key = m.key;
  val = m.value;
}

-- `Produce` writes the topic, the key and the value, and no headers.
unfoldable pub produce :
    {S : Type 0} → (KafkaMessage → Exec S (Unit {0})) → Message → Exec S (Unit {0})
produce write_messages msg = write_messages (record {
  headers = [];
  topic = msg.topic;
  partition = 0;
  offset = 0;
  key = msg.key;
  value = msg.val;
})

abbrev pub default_message_chan_size : ℕ
default_message_chan_size = 1024

-- Where the goroutine `readMessage` stands: in `ReadMessage`, at the send with a message in hand,
-- or ended.
pub data Loop : Type 0 where
  reading : Loop
  sending : Message → Loop
  ended : Loop

-- `closeOnce`: nobody has called `Close`, its function has cancelled the context and is about to
-- close the reader, or its function has returned.
pub data CloseOnce : Type 0 where
  untouched : CloseOnce
  cancelling : CloseOnce
  finished : CloseOnce

pub record KafkaConsumer : Type 0 where
  pub loop : Loop
  pub message_chan : List Message
  pub chan_closed : Bool
  pub cancelled : Bool
  pub reader_closed : Bool
  pub close_once : CloseOnce

unfoldable pub new_kafka_consumer : KafkaConsumer
new_kafka_consumer = record {
  loop = reading;
  message_chan = [];
  chan_closed = false;
  cancelled = false;
  reader_closed = false;
  close_once = untouched;
}

-- The errors at which the goroutine ends.
abbrev pub is_final : Error → Bool
is_final e = is e closed_pipe || is e eof || is e canceled

-- What the goroutine does with an error of `ReadMessage`: it ends and closes the channel, or it
-- reads again.
unfoldable pub read_failed : Error → KafkaConsumer → KafkaConsumer
read_failed e c = if is_final e then record c { loop = ended; chan_closed = true } else c

-- The two halves of the function that `closeOnce.Do` calls; the goroutine and the clients may act
-- between them.
unfoldable pub cancel_func : KafkaConsumer → KafkaConsumer
cancel_func c = record c { cancelled = true; close_once = cancelling }

unfoldable pub close_reader : KafkaConsumer → KafkaConsumer
close_reader c = record c { reader_closed = true; close_once = finished }

-- What happened in a step, as a client or the reader sees it; `closed` is what a call of `Close`
-- returned, an error of the reader or nil.
pub data Event : Type 0 where
  read : KafkaMessage → Event
  delivered : Message → Event
  dropped : Message → Event
  closed : Option Error → Event
  silent : Event

-- The steps of the goroutine, of `Consume` and of `Close`. A `select` takes any of its cases that
-- is ready. A client that gets a context error has changed nothing. A call of `Close` that finds
-- another one in `closeOnce.Do` waits until it has returned, and returns nil.
pub data Step (c : KafkaConsumer) : Event → KafkaConsumer → Type 0 where
  read_ok :
      (m : KafkaMessage)
      → c.loop ≡ reading
      → Step c (read m) (record c { loop = sending (convert_message m) })
  read_error : (e : Error) → c.loop ≡ reading → Step c silent (read_failed e c)
  send :
      (m : Message)
      → c.loop ≡ sending m
      → length c.message_chan < default_message_chan_size
      → Step c silent (record c { loop = reading; message_chan = c.message_chan ++ m ∷ [] })
  give_up :
      (m : Message)
      → c.loop ≡ sending m
      → c.cancelled ≡ true
      → Step c (dropped m) (record c { loop = ended; chan_closed = true })
  consume :
      (m : Message) (rest : List Message)
      → c.message_chan ≡ m ∷ rest
      → Step c (delivered m) (record c { message_chan = rest })
  consume_closed : c.message_chan ≡ [] → c.chan_closed ≡ true → Step c silent c
  consume_cancelled : c.cancelled ≡ true → Step c silent c
  cancel : c.close_once ≡ untouched → Step c silent (cancel_func c)
  close_first : (r : Option Error) → c.close_once ≡ cancelling → Step c (closed r) (close_reader c)
  close_again : c.close_once ≡ finished → Step c (closed none) c
