-- ===== src/Dao.antt =====
-- internal/repo/dao: the data access objects over gorm and the sharded databases.
pub mod Entities
pub mod Gorm
pub mod Calls
pub mod BizUser
pub mod UserContact
pub mod ContactApplication
pub mod ChannelApplication
pub mod Message
