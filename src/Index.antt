-- ===== src/Index.antt =====
-- internal/index/index.go: the listing cache of one target, an object of the bucket that is updated
-- by conditional writes.
--
-- The bucket is any `Store` of `Store.Port` over texts. What other processes do between two calls of
-- the store is a parameter, `Others`: a change of the state between the `Head` and the `Get` of
-- attempt `n`, and one between that `Get` and the conditional write.
pub mod Cache
pub mod Update
pub mod Atomic
pub mod Contents
