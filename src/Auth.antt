-- ===== src/Auth.antt =====
-- auth/: what a credential may do. Every handler of the API runs behind one of the doors.
pub mod Scopes
pub mod Doors
pub mod Users
pub mod Accounts
pub mod Keys
pub mod Requests
