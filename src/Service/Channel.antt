-- ===== src/Service/Channel.antt =====
-- internal/service/channel_service.go: group creation picks a way by the number of members; both
-- ways are not implemented yet and panic.
use hermet.Base.{
  ℕ, leb, ◌==◌, if◌then◌else◌, length, sentinel, wrap, invalid_param, panic, Exec, fail, lift,
}
use hermet.Domain.{Channel}
use hermet.Domain.Events.{ChannelCreatedEvent}

-- The threshold is an `int` that the constructor leaves at 0.
pub record DefaultChannelService : Type 0 where
  pub async_threshold : ℕ

abbrev pub new_default_channel_service : DefaultChannelService
new_default_channel_service = record { async_threshold = 0 }

module _ {S : Type 0} (s : DefaultChannelService) where
  unfoldable pub create_group_sync : ChannelCreatedEvent → Exec S Channel
  create_group_sync event = lift panic

  unfoldable pub create_group_async : ChannelCreatedEvent → Exec S Channel
  create_group_async event = lift panic

  unfoldable pub create_group : ChannelCreatedEvent → Exec S Channel
  create_group event =
      let member_cnt = length event.member_ids in
      if member_cnt == 0
      then fail (wrap "%w: member is empty" (sentinel invalid_param))
      else if leb member_cnt s.async_threshold
      then create_group_sync event
      else create_group_async event
