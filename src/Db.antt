-- ===== src/Db.antt =====
-- src/db.h and src/db.c: the responses of the archive, their tables and the queries. libkvstore is a
-- parameter, the record `Kvs` of the child `Store`.
pub mod Response
pub mod Merge
pub mod Store
pub mod Add
pub mod Query
