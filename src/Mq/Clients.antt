-- ===== src/Mq/Clients.antt =====
-- consumer/kafka_consumer.go and produce/kafka_producer.go: what a client calls. The factory makes
-- consumers with the reader that it was given a function for; `Consume` and `ConsumeChan` answer a
-- client by the state of the consumer and of the client's own context.
use hermet.Base.{
  ◌≡◌, refl, String, true, false, Option, none, some, List, [], ◌∷◌, ◌++◌, ◌⊎◌, inl, inr, ap, panic,
  pending, if◌then◌else◌, Error, sentinel, canceled, consumer_closed, Outcome, ok, err, arith,
}
use hermet.Mq.{
  CloseOnce, untouched, cancelling, finished, Message, ended, KafkaConsumer, new_kafka_consumer,
  delivered, Step, consume,
}
use hermet.Mq.Order.{has_begun, is_finished, IsValid, under_way, in_hand}

-- `KafkaConsumerFactory`, over the readers of kafka-go.
pub record KafkaConsumerFactory (Reader : Type 0) : Type 0 where
  pub reader_create_func : String → String → Reader

unfoldable pub new_kafka_consumer_factory :
    {Reader : Type 0} → (String → String → Reader) → KafkaConsumerFactory Reader
new_kafka_consumer_factory f = record { reader_create_func = f }

-- A consumer with what it was made from; its goroutine has started.
pub record Opened (Reader : Type 0) : Type 0 where
  pub topic : String
  pub group_id : String
  pub reader : Reader
  pub state : KafkaConsumer

unfoldable pub new_consumer :
    {Reader : Type 0} → KafkaConsumerFactory Reader → String → String → Outcome (Opened Reader)
new_consumer f topic group_id = ok (record {
  topic = topic;
  group_id = group_id;
  reader = f.reader_create_func topic group_id;
  state = new_kafka_consumer;
})

-- How `Consume` may answer a client whose context ended with `own`, if it has ended: a `select`
-- takes any of its cases that is ready.
pub data Consumes (c : KafkaConsumer) (own : Option Error) : Outcome Message → Type 0 where
  closed_first : c.cancelled ≡ true → Consumes c own (err (sentinel canceled))
  own_first : (e : Error) → own ≡ some e → Consumes c own (err e)
  got : (m : Message) (rest : List Message) → c.message_chan ≡ m ∷ rest → Consumes c own (ok m)
  no_more :
      c.message_chan ≡ [] → c.chan_closed ≡ true → Consumes c own (err (sentinel consumer_closed))

own_error : {A : Type 0} → Option Error → A → Outcome A
own_error none a = ok a
own_error (some e) a = err e

-- `ConsumeChan` gives the channel itself, as it stands.
unfoldable pub consume_chan : KafkaConsumer → Option Error → Outcome (List Message)
unfolding own_error
consume_chan c own =
    if c.cancelled then err (sentinel consumer_closed) else own_error own c.message_chan

-- What the answer tells the client about the consumer.
abbrev pub Explained : KafkaConsumer → Option Error → Outcome Message → Type 0
Explained c own (ok m) =
    (c' : KafkaConsumer) × Step c (delivered m) c' × (under_way c ≡ m ∷ under_way c')
Explained c own (err e) =
    (own ≡ some e)
    ⊎ ((c.cancelled ≡ true) × (e ≡ sentinel canceled))
    ⊎ ((under_way c ≡ []) × (c.loop ≡ ended) × (e ≡ sentinel consumer_closed))
Explained c own panic = ⊥
Explained c own pending = ⊥

-- In a valid state, a message that `Consume` returns is the oldest that is under way, and it is
-- taken; an error is the one that ended the client's own context, or the cancellation by `Close`,
-- or says that the goroutine has ended and nothing is left to deliver.
pub Consumes-Explained :
    {c : KafkaConsumer} {own : Option Error} {r : Outcome Message}
    → IsValid c
    → Consumes c own r
    → Explained c own r
Consumes-Explained v (closed_first h) = inr (inl (h, refl))
Consumes-Explained v (own_first e h) = inl h
Consumes-Explained {c} v (got m rest h) =
    (record c { message_chan = rest }, consume m rest h, ap (λ l. l ++ in_hand c.loop) h)
Consumes-Explained {c} v (no_more h k) =
    inr (inr (rw (h, v.closed_at_end k) refl, v.closed_at_end k, refl))

finished_begun : (o : CloseOnce) → has_begun o ≡ false → is_finished o ≡ false
finished_begun untouched h = refl
finished_begun cancelling h = cc
finished_begun finished h = cc

-- `ConsumeChan` refuses a closed consumer first, then a client whose context has ended with the
-- error of that context, and gives the channel otherwise; so in a valid state a client that gets
-- it sees a consumer whose reader is open.
pub consume_chan-ok :
    (c : KafkaConsumer) (own : Option Error) (l : List Message)
    → IsValid c
    → consume_chan c own ≡ ok l
    → (own ≡ none) × (l ≡ c.message_chan) × (c.reader_closed ≡ false)
unfolding consume_chan own_error
consume_chan-ok c none l v h =
    ground (arith, v.cancelled_begun, v.reader_finished, finished_begun c.close_once)
consume_chan-ok c (some e) l v h = ground (arith, v.cancelled_begun)
