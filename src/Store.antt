-- ===== src/Store.antt =====
-- The database as the application sees it: the tables of packages/db/prisma/schema.prisma, the client
-- through which the code reads and writes them, and a client that shows that its laws can hold.
pub mod Schema
pub mod Client
pub mod Command
pub mod Rows
pub mod Calls
pub mod Reference
pub mod Counting
pub mod Inversion
pub mod Rules
pub mod Evolution
