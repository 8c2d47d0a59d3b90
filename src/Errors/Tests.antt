-- ===== src/Errors/Tests.antt =====
-- Concrete statuses for bindings/python/pyx/errors.py.
use pyx.Base.{◌≡◌, refl}
use pyx.Base.Int.{negsuc}
use pyx.Errors.{pyx_error, write_conflict, from_status, pyx_write_conflict}

conflict_class : (from_status pyx_write_conflict "first").cls ≡ write_conflict
unfolding from_status
conflict_class = refl

unknown_class : (from_status (negsuc 99) "first").cls ≡ pyx_error
unfolding from_status
unknown_class = refl
