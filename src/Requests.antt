-- ===== src/Requests.antt =====
-- trinity/protocol/common/servers.py and trinity/protocol/eth (servers.py, normalizers.py and
-- validators.py): what a peer answers to a request, and which answers the other one accepts.
pub mod Server
pub mod Validators
pub mod Accepting
pub mod Numbers
pub mod Available
pub mod Answers
pub mod Stored
pub mod Replies
mod Tests
