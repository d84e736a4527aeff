-- ===== src/Iam.antt =====
-- iam/src/lib.rs and domain/src/iam.rs: permission patterns, a tenant's catalog, and what a holder
-- may do in it. Names are texts that come from outside. A `BTreeSet` is the list of its elements and
-- a `BTreeMap` the list of its entries, in the order of iteration; a set that `collect` builds is the
-- list of what it collects, of which only membership is read.
pub mod Pattern
pub mod Catalog
pub mod Grants
mod Tests
