-- ===== src/Model.antt =====
-- CodeJam/apps/server/src/types.ts and errors.ts: the data of the server. A point in time is a
-- number, where the source has its ISO 8601 text: texts of one width, which `localeCompare` puts
-- in the order of the times.
mod Session
mod Data
mod Mandate
mod Errors
pub use Session.*
pub use Data.*
pub use Mandate.*
pub use Errors.*
