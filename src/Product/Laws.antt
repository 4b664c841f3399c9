-- ===== src/Product/Laws.antt =====
-- What the commands on the tables of the products keep.
pub mod Credentials
pub mod Steps
pub mod Commands
pub mod Clients
pub mod Sessions
