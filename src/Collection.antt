-- ===== src/Collection.antt =====
-- apps/api/src/collection-query: the query parameters of the API's lists, and their cursors.
pub mod Checks
pub mod Cursor
pub mod Definition
pub mod Query
pub mod Sorting
pub mod Pages
pub mod Links
pub mod Cursors
