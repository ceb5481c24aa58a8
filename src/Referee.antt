-- ===== src/Referee.antt =====
-- referee/service.py: the CTF referee. The children hold the start-up checks, the referee's state
-- and its HTTP interface, and the theorems about them.
mod Files
mod State
mod Start
mod Diagnostic
pub mod FlagFile
pub mod Http
pub mod Valid
pub mod Match
pub mod Submit
pub mod Run
pub mod Restart
pub mod Answers
pub mod StartLaws
pub mod HttpLaws
pub mod PlainText
pub mod Reserved
pub mod Messages
mod Tests
unfoldable pub use Files.*
unfoldable pub use State.*
unfoldable pub use Start.*
unfoldable pub use Diagnostic.*
