-- ===== src/Dao/Message.antt =====
-- internal/repo/dao/message_dao.go and channel_dao.go: messages go to one MongoDB collection, and
-- the channel dao is not implemented yet: it panics.
use hermet.Base.{String, panic, Exec}
use hermet.Dao.Entities.{Message, Channel}

-- `MessageDao`, over `InsertOne` of the collection named "message".
pub record MessageDao (S : Type 0) : Type 0 where
  pub save : Message → Exec S (Unit {0})

module _ {S : Type 0} (insert_one : String → Message → Exec S (Unit {0})) where
  unfoldable pub save_message : Message → Exec S (Unit {0})
  save_message message = insert_one "message" message

  unfoldable pub message_dao : MessageDao S
  message_dao = record { save = save_message }

unfoldable pub save_channel : {S : Type 0} → Channel → Exec S Channel
save_channel channel s = (panic, s)
