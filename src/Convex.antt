-- ===== src/Convex.antt =====
-- The Convex database that the backend's functions call through `ctx.db`. It is not in the
-- repository: `Database` states what the code relies on, and every function takes it as an
-- instance argument. `Memory` is a database that has these laws, for runs and examples.
pub mod Docs
pub mod Database
pub mod Queries
pub mod Memory
